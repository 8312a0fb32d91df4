-- ===== src/Allocator/Discovered.antt =====
-- pkg/sysfs/system.go and pkg/cpuallocator/allocator.go together: allocating on a machine that
-- `DiscoverSystem` has found.
use Prim.Native.Nat.{bit_and}
use mathlib.Core.Path.{subst}
use cpu_policy_plugins_for_k.Prelude.{
  ℕ, ◌≤◌, ◌≡◌, ◌≢◌, refl, sym, ◌∙◌, ◌&&◌, true, false, some, Option-cases, inl, inr, List, [],
  String, elem, ◌==◌, arith, nat_beq,
}
use cpu_policy_plugins_for_k.Prelude.GoMap.{GoMap, get, keys, absent_of_get-none}
use cpu_policy_plugins_for_k.Prelude.Int.{ℤ, pos, int_eq, int_beq_iff}
use cpu_policy_plugins_for_k.Prelude.Outcome.{Outcome, ok, panic}
use cpu_policy_plugins_for_k.Errors.{Error}
use cpu_policy_plugins_for_k.Runtime.{GoRuntime}
use cpu_policy_plugins_for_k.Cpuset.{Cpusets}
use cpu_policy_plugins_for_k.Sysfs.{
  IdSet, nil_set, id_set, System, Cpu, Package, entries, package_at, cpu_at, package_cpus,
  cpuset_of, ids, has,
}
use cpu_policy_plugins_for_k.Sysfs.Filed.{listed, belongs}
use cpu_policy_plugins_for_k.Sysfs.Stages.{Settles, has_value, has_error}
use cpu_policy_plugins_for_k.Sysfs.Discovery.{discover_system, flags_after, flags_asked}
use cpu_policy_plugins_for_k.Sysfs.Discovered.{IsDiscovered, discover_system-IsDiscovered}
use cpu_policy_plugins_for_k.Allocator.{package_cpuset, online_core, package_of, allocate_cpus}
use cpu_policy_plugins_for_k.Allocator.Topology.{IsWellFormed, Online}
use cpu_policy_plugins_for_k.Allocator.Partition.{Splits, allocate_cpus-Splits}
use cpu_policy_plugins_for_k.Allocator.Cache.{ThreadsAgree}

-- A system that a call has returned has what the call gives.
Settles-ok :
    {P : System → Type 0} (o : Outcome Error System) (sys : System)
    → Settles P o
    → o ≡ ok sys
    → P sys
Settles-ok {P} _ sys (has_value a p) e = subst P (cc (e)) p
Settles-ok {P} _ sys (has_error m) e = absurd (cc (e))

elem-ids : (s : IdSet) (x : ℤ) → elem x (ids s) ≡ has s x
unfolding has
elem-ids nil_set x = refl
elem-ids (id_set xs) x = refl

belongs_apart :
    (cpus : GoMap ℤ Cpu) (i j x : ℤ)
    → (i == j) ≡ false
    → (belongs cpus i x && belongs cpus j x) ≡ false
belongs_apart cpus i j x ne = elim (Option-cases (get x cpus)) [
  | inl e ↦ ground (arith, e)
  | inr (cpu, e) ↦ ground (arith, e, int_beq_iff cpu.pkg i, int_beq_iff cpu.pkg j, int_beq_iff i j)
]

module _ ⦃c : Cpusets⦄ where
  open c use {CPUSet, contains, size, new_cpuset, contains-new}

  package_cpuset-listed :
      (sys : System) (p x : ℤ)
      → contains (package_cpuset sys p) x ≡ listed (entries sys.packages) p x
  unfolding package_cpuset package_at package_cpus cpuset_of has
  package_cpuset-listed sys p x = elim (Option-cases (get p (entries sys.packages))) [
    | inl e ↦ ground (arith, e, contains-new [] x)
    | inr (pkg, e) ↦ ground (arith, e, contains-new (ids pkg.cpus) x, elem-ids pkg.cpus x)
  ]

  -- The machine has hyperthreads that agree on their siblings, and each of its cores has one online.
  pub record HasThreads (sys : System) : Type 0 where
    pub threads_agree : ThreadsAgree sys
    pub core_online :
        (i : ℤ)
        → elem i (keys (entries sys.cpus)) ≡ true
        → (x : ℤ) × (contains (online_core sys i) x ≡ true)

  discovered_package :
      (sys : System) (i : ℤ)
      → IsDiscovered sys
      → elem i (keys (entries sys.cpus)) ≡ true
      → (p : ℤ) × (q : Package) × (package_of sys i ≡ some p) × (package_at sys p ≡ some q)
  unfolding package_of package_at cpu_at
  discovered_package sys i d m = elim (Option-cases (get i (entries sys.cpus))) [
    | inl missing ↦ absurd (ground (arith, absent_of_get-none i (entries sys.cpus)))
    | inr (cpu, e) ↦ elim (Option-cases (get cpu.pkg (entries sys.packages))) [
      | inl unknown ↦
          absurd (ground (arith, e, unknown, d.parted cpu.pkg i, int_beq_iff cpu.pkg cpu.pkg))
      | inr (pkg, f) ↦ (cpu.pkg, pkg, rw (e, package_of) refl, f)
    ]
  ]

  IsDiscovered-IsWellFormed : (sys : System) → IsDiscovered sys → HasThreads sys → IsWellFormed sys
  IsDiscovered-IsWellFormed sys d t = record {
    cpus_distinct = d.distinct;
    packages_distinct = d.once;
    packages_apart = λ i j ne x. ground (
      arith,
      package_cpuset-listed sys i x,
      package_cpuset-listed sys j x,
      d.parted i x,
      d.parted j x,
      belongs_apart (entries sys.cpus) i j x ne,
    );
    siblings_agree =
        λ i j x p q y. t.threads_agree.same i x y p ∙ sym (t.threads_agree.same j x y q);
    package_known = λ i m. discovered_package sys i d m;
    core_online = t.core_online;
  }

  module _ ⦃g : GoRuntime⦄ (read_file : String → Outcome Error String) (glob : String → List String)
      (put_online put_offline : ℤ → Outcome Error ℤ) where
    -- On a machine that DiscoverSystem has returned, where reading and writing files does not
    -- panic, the flags asked for the CPUs, hyperthreads agree on their siblings and each core has
    -- one of them online: from a set of the machine's online CPUs that has CPUs enough,
    -- AllocateCpus returns exactly as many as it is asked for, all of them from the set, and leaves
    -- exactly the others.
    pub allocate_cpus-discover_system :
        (args : List ℕ) (sys : System) (from : CPUSet) (n : ℕ)
        → ((path : String) → read_file path ≢ panic)
        → ((id : ℤ) → put_online id ≢ panic)
        → ((id : ℤ) → put_offline id ≢ panic)
        → nat_beq (bit_and (flags_after 0 (flags_asked args)) 5) 0 ≡ false
        → discover_system read_file glob put_online put_offline args ≡ ok sys
        → HasThreads sys
        → Online sys from
        → n ≤ size from
        → Splits from n (allocate_cpus (some sys) from (pos n))
    allocate_cpus-discover_system args sys from n readable lit dark asked found threads online
          enough =
        let discovered =
          discover_system-IsDiscovered read_file glob readable put_online put_offline lit dark args
            asked in
        allocate_cpus-Splits sys from n
          (IsDiscovered-IsWellFormed sys (Settles-ok _ sys discovered found) threads) online enough
