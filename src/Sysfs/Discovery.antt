-- ===== src/Sysfs/Discovery.antt =====
-- pkg/sysfs/system.go: the discovery of a machine. The bit that asks for the caches is cleared
-- before anything is discovered, so `discoverCache` never runs and is left out.
use Prim.Native.Nat.{bit_and, bit_or}
use Prim.Native.String.{String}
use cpu_policy_plugins_for_k.Prelude.{
  ℕ, ◌-◌, true, false, List, [], ◌∷◌, Option, none, some, map, nat_beq, if◌then◌else◌,
}
use cpu_policy_plugins_for_k.Prelude.GoMap.{put}
use cpu_policy_plugins_for_k.Prelude.Int.{ℤ, pos, int_eq, pos_part}
use cpu_policy_plugins_for_k.Prelude.Outcome.{Outcome, ok, err, panic, ◌>>=◌, Op, after}
use cpu_policy_plugins_for_k.Errors.{Error}
use cpu_policy_plugins_for_k.Runtime.{GoRuntime}
use cpu_policy_plugins_for_k.Sysfs.Sets.{IdSet, nil_set, id_set, store_all}
use cpu_policy_plugins_for_k.Sysfs.Machine.{Cpu, Node, System, entries}
use cpu_policy_plugins_for_k.Sysfs.Control.{set_cpus_online}
use cpu_policy_plugins_for_k.Sysfs.Entries.{
  int_kind, uint64_kind, get_enumerated_id, read_sysfs_entry, parse_id, parse_value, parse_id_set,
  parse_slice, join_path,
}
use cpu_policy_plugins_for_k.Sysfs.Packages.{discover_packages}

-- `SysfsPath`, `systemCpuPath`, `systemNodePath`
abbrev pub sysfs_path : String
sysfs_path = "/sys"

abbrev pub system_cpu_path : String
system_cpu_path = "devices/system/cpu"

abbrev pub system_node_path : String
system_node_path = "devices/system/node"

-- `DiscoveryFlag`, a bit each
abbrev pub discover_cpu_topology : ℕ
discover_cpu_topology = 1

abbrev pub discover_mem_topology : ℕ
discover_mem_topology = 2

abbrev pub discover_cache : ℕ
discover_cache = 4

abbrev pub discover_none : ℕ
discover_none = 0

abbrev pub discover_default : ℕ
discover_default = discover_cpu_topology

-- A frequency, 0 if it cannot be read.
abbrev pub or_zero : Outcome Error ℤ → Outcome Error ℕ
or_zero (ok n) = ok (pos_part n)
or_zero (err e) = ok 0
or_zero panic = panic

-- The node that a CPU's directory links to, if there is just one; the zero value otherwise.
unfoldable pub linked_node : List String → ℤ
linked_node (entry ∷ []) = get_enumerated_id entry
linked_node _ = pos 0

-- What a call comes to after a deferred call, whose error is dropped.
unfoldable pub after_deferred :
    Outcome Error (Unit {0}) → System × Outcome Error IdSet → System × Outcome Error (Unit {0})
after_deferred ended (sys, panic) = (sys, panic)
after_deferred ended (sys, ok changed) = (sys, ended)
after_deferred ended (sys, err e) = (sys, ended)

-- The flags that a system has after `Discover(flags)` has set its own; `a &^ b` is `a` less the bits
-- that it has in common with `b`.
unfoldable pub flags_after : ℕ → ℕ → ℕ
flags_after known flags = bit_or known (flags - bit_and flags discover_cache)

-- The flags of a call of `DiscoverSystem`.
unfoldable pub all_flags : List ℕ → ℕ → ℕ
all_flags [] acc = acc
all_flags (flag ∷ rest) acc = all_flags rest (bit_or acc flag)

unfoldable pub flags_asked : List ℕ → ℕ
unfolding all_flags
flags_asked [] = discover_default
flags_asked (flag ∷ rest) = all_flags (flag ∷ rest) discover_none

-- The system that discovery starts from.
abbrev pub unknown_system : System
unknown_system = record {
  flags = 0;
  path = sysfs_path;
  packages = none;
  nodes = none;
  cpus = none;
  offline = id_set [];
}

unfoldable pub discovered : System × Outcome Error (Unit {0}) → Outcome Error System
discovered (sys, ok done) = ok sys
discovered (sys, err e) = err e
discovered (sys, panic) = panic

unfoldable pub filed_call : System → Option System → System × Outcome Error (Unit {0})
filed_call sys none = (sys, panic)
filed_call sys (some filed) = (filed, ok tt)

module _ ⦃g : GoRuntime⦄ where
  -- `discoverPackages()` as a call
  unfoldable pub packages_call : Op System Error (Unit {0})
  unfolding filed_call
  packages_call sys = filed_call sys (discover_packages sys)

  module _ (put_offline : ℤ → Outcome Error ℤ) where
    -- The deferred `SetCpusOnline(false, offline)`
    unfoldable pub deferred_offline :
        List ℤ → IdSet → System × Outcome Error (Unit {0}) → System × Outcome Error (Unit {0})
    unfolding after_deferred
    deferred_offline found offline (sys, panic) = (sys, panic)
    deferred_offline found offline (sys, ok done) =
        after_deferred (ok done) (set_cpus_online put_offline found false offline sys)
    deferred_offline found offline (sys, err e) =
        after_deferred (err e) (set_cpus_online put_offline found false offline sys)

-- What the file system shows: the contents of a file, and the paths that match a pattern.
module _ (read_file : String → Outcome Error String) (glob : String → List String) where
  -- `discoverCpu(path)` up to the point where the record is stored
  unfoldable pub read_cpu : String → Outcome Error Cpu
  read_cpu path =
      read_sysfs_entry read_file parse_id path "topology/physical_package_id" (pos 0) >>= λ pkg.
      read_sysfs_entry read_file (parse_id_set 44) path "topology/thread_siblings_list" nil_set
      >>= λ threads.
          or_zero (
            read_sysfs_entry read_file (parse_value uint64_kind) path "cpufreq/cpuinfo_min_freq"
              (pos 0))
          >>= λ min.
              or_zero (
                read_sysfs_entry read_file (parse_value uint64_kind) path "cpufreq/cpuinfo_max_freq"
                  (pos 0))
              >>= λ max. ok (record {
                path = path;
                id = get_enumerated_id path;
                pkg = pkg;
                node = linked_node (glob (join_path path "node[0-9]*"));
                threads = threads;
                freq = record { min = min; max = max };
                online = true;
              })

  -- `discoverCpu(path)`
  unfoldable pub discover_cpu : String → Op System Error (Unit {0})
  unfolding read_cpu
  discover_cpu path sys = elim (read_cpu path) [
    | err e ↦ (sys, err e)
    | panic ↦ (sys, panic)
    | ok cpu ↦ (record sys { cpus = some (put cpu.id cpu (entries sys.cpus)) }, ok tt)
  ]

  -- The loop of `discoverCpus`.
  unfoldable pub discover_each_cpu : List String → Op System Error (Unit {0})
  unfolding discover_cpu
  discover_each_cpu [] sys = (sys, ok tt)
  discover_each_cpu (entry ∷ rest) sys =
      after (discover_cpu entry sys) λ s done. discover_each_cpu rest s

  -- `discoverNode(path)` up to the point where the record is stored, and with the flags of the system
  unfoldable pub read_node : ℕ → String → Outcome Error Node
  read_node flags path =
      read_sysfs_entry read_file (parse_id_set 44) path "cpulist" nil_set >>= λ cpus.
      read_sysfs_entry read_file (parse_slice int_kind 32) path "distance" [] >>= λ distance.
      ok (record {
        path = path;
        id = get_enumerated_id path;
        cpus = cpus;
        distance = distance;
        memory =
            if nat_beq (bit_and flags discover_mem_topology) 0
            then nil_set
            else id_set
                (store_all (map get_enumerated_id (glob (join_path path "memory[0-9]*"))) []);
      })

  -- `discoverNode(path)`
  unfoldable pub discover_node : String → Op System Error (Unit {0})
  unfolding read_node
  discover_node path sys = elim (read_node sys.flags path) [
    | err e ↦ (sys, err e)
    | panic ↦ (sys, panic)
    | ok node ↦ (record sys { nodes = some (put node.id node (entries sys.nodes)) }, ok tt)
  ]

  unfoldable pub discover_each_node : List String → Op System Error (Unit {0})
  unfolding discover_node
  discover_each_node [] sys = (sys, ok tt)
  discover_each_node (entry ∷ rest) sys =
      after (discover_node entry sys) λ s done. discover_each_node rest s

  -- `discoverNodes()`
  unfoldable pub discover_nodes : Op System Error (Unit {0})
  unfolding discover_each_node
  discover_nodes sys = elim sys.nodes [
    | some known ↦ (sys, ok tt)
    | none ↦
        discover_each_node (glob (join_path (join_path sys.path system_node_path) "node[0-9]*"))
          (record sys { nodes = some [] })
  ]

  module _ ⦃g : GoRuntime⦄ (put_online put_offline : ℤ → Outcome Error ℤ) where
    -- `discoverCpus()`: every CPU is put online first, and those that were not are put back.
    unfoldable pub discover_cpus : Op System Error (Unit {0})
    unfolding deferred_offline discover_each_cpu
    discover_cpus sys = elim sys.cpus [
      | some known ↦ (sys, ok tt)
      | none ↦
          let found = glob (join_path (join_path sys.path system_cpu_path) "cpu[0-9]*") in
          let ids = map get_enumerated_id found in
          after (set_cpus_online put_online ids true nil_set (record sys { cpus = some [] }))
            λ s offline. deferred_offline put_offline ids offline (discover_each_cpu found s)
    ]

    -- The first part of `Discover`, and the second.
    unfoldable pub discover_topology : Op System Error (Unit {0})
    unfolding discover_cpus discover_nodes packages_call
    discover_topology sys =
        if nat_beq (bit_and sys.flags (bit_or discover_cpu_topology discover_cache)) 0
        then (sys, ok tt)
        else after (discover_cpus sys) λ s done. after (discover_nodes s) λ t done. packages_call t

    unfoldable pub discover_memory : Op System Error (Unit {0})
    unfolding discover_nodes
    discover_memory sys =
        if nat_beq (bit_and sys.flags discover_mem_topology) 0
        then (sys, ok tt)
        else discover_nodes sys

    -- `Discover(flags)`
    unfoldable pub discover : ℕ → Op System Error (Unit {0})
    unfolding discover_topology discover_memory flags_after
    discover flags sys =
        let asked = flags_after sys.flags flags in
        after (discover_topology (record sys { flags = asked })) λ s done. discover_memory s

    -- `DiscoverSystem(args...)`
    unfoldable pub discover_system : List ℕ → Outcome Error System
    unfolding discover discovered flags_asked
    discover_system args = discovered (discover (flags_asked args) unknown_system)
