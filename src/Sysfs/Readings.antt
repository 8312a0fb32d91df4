-- ===== src/Sysfs/Readings.antt =====
-- pkg/sysfs/system.go: what reading the records of CPUs and nodes leaves of a system.
use cpu_policy_plugins_for_k.Prelude.{
  ℕ, ◌≡◌, ◌≢◌, refl, true, some, Option, Option-cases, inl, inr, List, [], ◌∷◌, String,
}
use cpu_policy_plugins_for_k.Prelude.GoMap.{GoMap}
use cpu_policy_plugins_for_k.Prelude.Int.{ℤ, pos, int_eq}
use cpu_policy_plugins_for_k.Prelude.Outcome.{Outcome, panic, Outcome-cases}
use cpu_policy_plugins_for_k.Errors.{Error}
use cpu_policy_plugins_for_k.Sysfs.{nil_set, System, Cpu, Node}
use cpu_policy_plugins_for_k.Sysfs.Entries.{
  Parsed, parsed, malformed, endless, outcome_of, read_sysfs_entry, parse_id, parse_id_set,
  parse_slice, parse_value, int_kind, uint64_kind, join_path, newline,
}
use cpu_policy_plugins_for_k.Procfs.Text.{trim}
use cpu_policy_plugins_for_k.Sysfs.Discovery.{
  read_cpu, discover_cpu, discover_each_cpu, read_node, discover_node, discover_each_node,
  discover_nodes, or_zero,
}
use cpu_policy_plugins_for_k.Sysfs.Stages.{
  Ends, after-Ends, Settles, has_value, has_error, bind-Settles, IsReading, IsReading-put,
}

-- A property that the nodes do not matter to.
abbrev pub NodesApart : (System → Type 0) → Type 0
NodesApart P =
    (sys : System) (nodes : Option (GoMap ℤ Node)) → P sys → P (record sys { nodes = nodes })

module _ (read_file : String → Outcome Error String) (glob : String → List String) where
  module _ (readable : (path : String) → read_file path ≢ panic) where
    outcome_of-Settles :
        {A : Type 0} (entry : String) (p : Parsed A)
        → Settles (λ (a : A). Unit {0}) (outcome_of entry p)
    outcome_of-Settles entry (parsed a) = has_value _ tt
    outcome_of-Settles entry malformed = has_error _
    outcome_of-Settles entry endless = has_error _

    read_sysfs_entry-Settles :
        {A : Type 0} (parser : String → A → Parsed A) (base entry : String) (old : A)
        → Settles (λ a. Unit {0}) (read_sysfs_entry read_file parser base entry old)
    unfolding read_sysfs_entry
    read_sysfs_entry-Settles parser base entry old =
        elim (Outcome-cases (read_file (join_path base entry))) [
          | inr (inl (e, broken)) ↦ rw (broken, read_sysfs_entry) (has_error _)
          | inr (inr gone) ↦ absurd (readable (join_path base entry) gone)
          | inl (blob, shown) ↦
              rw (shown, read_sysfs_entry)
                (outcome_of-Settles entry (parser (trim newline blob) old))
        ]

    or_zero-Settles :
        (o : Outcome Error ℤ) → Settles (λ a. Unit {0}) o → Settles (λ a. Unit {0}) (or_zero o)
    or_zero-Settles _ (has_value a p) = has_value _ tt
    or_zero-Settles _ (has_error e) = has_value _ tt

    -- A frequency of a CPU.
    frequency-Settles :
        (path entry : String)
        → Settles
            (λ a. Unit {0})
            (or_zero (read_sysfs_entry read_file (parse_value uint64_kind) path entry (pos 0)))
    frequency-Settles path entry =
        or_zero-Settles _ (read_sysfs_entry-Settles (parse_value uint64_kind) path entry (pos 0))

    read_cpu-Settles :
        (path : String) → Settles (λ (cpu : Cpu). cpu.online ≡ true) (read_cpu read_file glob path)
    unfolding read_cpu
    read_cpu-Settles path =
        bind-Settles (read_sysfs_entry-Settles parse_id path "topology/physical_package_id" (pos 0))
          λ pkg h.
            bind-Settles
              (read_sysfs_entry-Settles (parse_id_set 44) path "topology/thread_siblings_list"
                nil_set)
              λ threads h. bind-Settles (frequency-Settles path "cpufreq/cpuinfo_min_freq") λ min h.
                bind-Settles (frequency-Settles path "cpufreq/cpuinfo_max_freq")
                  λ max h. has_value _ refl

    after_read_cpu :
        (path : String) (sys : System)
        → IsReading sys
        → (o : Outcome Error Cpu) → read_cpu read_file glob path ≡ o
        → Settles (λ (cpu : Cpu). cpu.online ≡ true) o
        → Ends IsReading (discover_cpu read_file glob path sys)
    unfolding discover_cpu
    after_read_cpu path sys h _ e (has_value cpu online) =
        rw (e, discover_cpu) (IsReading-put sys cpu h online, λ q. cc)
    after_read_cpu path sys h _ e (has_error m) = rw (e, discover_cpu) (h, λ q. cc)

    discover_cpu-Ends :
        (path : String) (sys : System)
        → IsReading sys
        → Ends IsReading (discover_cpu read_file glob path sys)
    discover_cpu-Ends path sys h =
        after_read_cpu path sys h (read_cpu read_file glob path) refl (read_cpu-Settles path)

    pub discover_each_cpu-Ends :
        (found : List String) (sys : System)
        → IsReading sys
        → Ends IsReading (discover_each_cpu read_file glob found sys)
    unfolding discover_each_cpu
    discover_each_cpu-Ends [] sys h = (h, λ q. cc)
    discover_each_cpu-Ends (path ∷ rest) sys h =
        after-Ends {P = IsReading} {Q = IsReading} (discover_cpu read_file glob path sys) _
          (discover_cpu-Ends path sys h) (λ s k. k) λ s done k. discover_each_cpu-Ends rest s k

    read_node-Settles :
        (flags : ℕ) (path : String)
        → Settles (λ (node : Node). Unit {0}) (read_node read_file glob flags path)
    unfolding read_node
    read_node-Settles flags path =
        bind-Settles (read_sysfs_entry-Settles (parse_id_set 44) path "cpulist" nil_set) λ cpus h.
          bind-Settles (read_sysfs_entry-Settles (parse_slice int_kind 32) path "distance" [])
            λ distance h. has_value _ tt

    after_read_node :
        {P : System → Type 0} (nodes_apart : NodesApart P) (path : String) (sys : System)
        → P sys
        → (o : Outcome Error Node) → read_node read_file glob sys.flags path ≡ o
        → Settles (λ (node : Node). Unit {0}) o
        → Ends P (discover_node read_file glob path sys)
    unfolding discover_node
    after_read_node nodes_apart path sys h _ e (has_value node u) =
        rw (e, discover_node) (nodes_apart sys _ h, λ q. cc)
    after_read_node nodes_apart path sys h _ e (has_error m) = rw (e, discover_node) (h, λ q. cc)

    discover_each_node-Ends :
        {P : System → Type 0} (nodes_apart : NodesApart P) (found : List String) (sys : System)
        → P sys
        → Ends P (discover_each_node read_file glob found sys)
    unfolding discover_each_node
    discover_each_node-Ends nodes_apart [] sys h = (h, λ q. cc)
    discover_each_node-Ends {P} nodes_apart (path ∷ rest) sys h =
        after-Ends {P = P} {Q = P} (discover_node read_file glob path sys) _
          (after_read_node nodes_apart path sys h _ refl (read_node-Settles sys.flags path))
          (λ s k. k) λ s done k. discover_each_node-Ends nodes_apart rest s k

    pub discover_nodes-Ends :
        {P : System → Type 0} (nodes_apart : NodesApart P) (sys : System)
        → P sys
        → Ends P (discover_nodes read_file glob sys)
    unfolding discover_nodes
    discover_nodes-Ends nodes_apart sys h = elim (Option-cases sys.nodes) [
      | inl unknown ↦
          rw (unknown, discover_nodes)
            (discover_each_node-Ends nodes_apart _ (record sys { nodes = some [] })
              (nodes_apart sys (some []) h))
      | inr (known, e) ↦ rw (e, discover_nodes) (h, λ q. cc)
    ]
