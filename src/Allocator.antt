-- ===== src/Allocator.antt =====
-- pkg/cpuallocator/allocator.go: picks CPUs out of a set, whole idle packages first, then whole
-- idle cores, then single hyperthreads. Logging is left out, and so are the fields of
-- `CpuAllocator` that nothing reads (`offline`, `pkgs`, `cpus`).
pub mod Topology
pub mod Taking
pub mod Threads
pub mod Idle
pub mod Partition
pub mod Faults
pub mod Cache
pub mod Discovered
pub mod Tests
pub mod FaultTests
pub mod DiscoveredTests
use Prim.Native.Nat.{bit_and}
use cpu_policy_plugins_for_k.Prelude.{
  ℕ, Bool, true, false, not, ◌&&◌, ◌||◌, List, [], ◌∷◌, Option, none, some, length, elem, select,
  ◌==◌, if◌then◌else◌, ltb, leb, nat_beq,
}
use cpu_policy_plugins_for_k.Prelude.Int.{ℤ, pos, int_eq, ltb_ℤ, leb_ℤ, ◌-ℤ◌}
use cpu_policy_plugins_for_k.Prelude.Outcome.{Outcome, ok, err, panic}
use cpu_policy_plugins_for_k.Errors.{Error, not_enough_cpus}
use cpu_policy_plugins_for_k.Cpuset.{Cpusets}
use cpu_policy_plugins_for_k.Runtime.{GoRuntime}
use cpu_policy_plugins_for_k.Sysfs.{
  System, Cpu, Package, package_at, cpu_at, package_ids, cpu_ids, thread_cpuset, package_cpus,
  offlined,
}

-- AllocFlag, a bit each.
abbrev pub alloc_idle_packages : ℕ
alloc_idle_packages = 1

abbrev pub alloc_idle_nodes : ℕ
alloc_idle_nodes = 2

abbrev pub alloc_idle_cores : ℕ
alloc_idle_cores = 4

abbrev pub alloc_default : ℕ
alloc_default = 5

-- `system.pick`: the ids that pass the filter; a nil filter passes all.
unfoldable pub pick : List ℤ → Option (ℤ → Bool) → List ℤ
pick ids none = ids
pick ids (some f) = select f ids

module _ ⦃c : Cpusets⦄ where
  open c use {CPUSet, new_cpuset, contains, size, equals, union, intersection, difference, to_slice}

  pub record CpuAllocator : Type 0 where
    pub sys : System
    pub flags : ℕ
    pub from : CPUSet
    pub cnt : ℤ
    pub result : CPUSet

  -- `NewCpuAllocator(sys)`, where the singleton's system stands in for nil.
  unfoldable pub new_cpu_allocator : Option System → Option System → Option CpuAllocator
  new_cpu_allocator singleton (some sys) = some (record {
    sys = sys;
    flags = alloc_default;
    from = new_cpuset [];
    cnt = pos 0;
    result = new_cpuset [];
  })
  new_cpu_allocator none none = none
  new_cpu_allocator (some sys) none = some (record {
    sys = sys;
    flags = alloc_default;
    from = new_cpuset [];
    cnt = pos 0;
    result = new_cpuset [];
  })

  -- `PackageCPUSet`, without its cache. The ids come from the map itself, except in the sort by
  -- preference, which checks them first; so the empty set stands for a nil package.
  unfoldable pub package_cpuset : System → ℤ → CPUSet
  package_cpuset sys id = elim (package_at sys id) [
    | none ↦ new_cpuset []
    | some pkg ↦ package_cpus pkg
  ]

  -- `CoreCPUSet`, without its cache.
  unfoldable pub core_cpuset : System → ℤ → CPUSet
  core_cpuset sys id = elim (cpu_at sys id) [ none ↦ new_cpuset [] | some cpu ↦ thread_cpuset cpu ]

  unfoldable pub online_package : System → ℤ → CPUSet
  online_package sys id = difference (package_cpuset sys id) (offlined sys)

  unfoldable pub online_core : System → ℤ → CPUSet
  online_core sys id = difference (core_cpuset sys id) (offlined sys)

  -- `cset.Intersection(a.from).Equals(cset)`
  unfoldable pub is_idle : CpuAllocator → CPUSet → Bool
  is_idle a cset = equals (intersection cset a.from) cset

  -- The bodies of the loops: move a set of CPUs from `from` to `result`.
  unfoldable pub take_set : CPUSet → CpuAllocator → CpuAllocator
  take_set cset a = record a {
    result = union a.result cset;
    from = difference a.from cset;
    cnt = a.cnt -ℤ pos (size cset);
  }

  -- The loop of `takeIdlePackages` and of `takeIdleCores`, over the sets of the ids in order.
  unfoldable pub take_fitting : (ℤ → CPUSet) → List ℤ → CpuAllocator → CpuAllocator
  take_fitting set_of [] a = a
  take_fitting set_of (id ∷ ids) a =
      let skipped = take_fitting set_of ids a in
      let taken = take_set (set_of id) a in
      let more = take_fitting set_of ids taken in
      if leb_ℤ (pos (size (set_of id))) a.cnt
      then (if taken.cnt == pos 0 then taken else more)
      else skipped

  -- The loop of `takeIdleThreads`.
  unfoldable pub take_each : List ℤ → CpuAllocator → CpuAllocator
  take_each [] a = a
  take_each (id ∷ ids) a =
      let taken = take_set (new_cpuset (id ∷ [])) a in
      let more = take_each ids taken in if taken.cnt == pos 0 then taken else more

  -- `cset.ToSlice()[0] == int(id)`, with `none` for the index out of range.
  unfoldable pub is_first : ℤ → List ℤ → Option Bool
  is_first id [] = none
  is_first id (x ∷ xs) = some (x == id)

  -- The filter of `takeIdleCores`; `none` if it panics.
  unfoldable pub first_of_idle_core : CpuAllocator → ℤ → Option Bool
  unfolding is_first online_core is_idle
  first_of_idle_core a id =
      let cset = online_core a.sys id in
      if is_idle a cset then is_first id (to_slice cset) else some false

  -- Whether some id makes the filter panic.
  unfoldable pub filter_panics : (ℤ → Option Bool) → List ℤ → Bool
  filter_panics f [] = false
  filter_panics f (id ∷ ids) = elim (f id) [ none ↦ true | some b ↦ filter_panics f ids ]

  abbrev pub passes : (ℤ → Option Bool) → ℤ → Bool
  passes f id = elim (f id) [ none ↦ false | some b ↦ b ]

  -- The package of a CPU, as the sort by preference reads it.
  unfoldable pub package_of : System → ℤ → Option ℤ
  package_of sys id = elim (cpu_at sys id) [ none ↦ none | some cpu ↦ some cpu.pkg ]

  -- The test of the sort by preference, over the packages of the two CPUs.
  unfoldable pub preferred : CpuAllocator → ℤ → ℤ → ℤ → ℤ → Bool
  preferred a i_pkg j_pkg i_core j_core =
      let i_pkg_set = package_cpuset a.sys i_pkg in
      let j_pkg_set = package_cpuset a.sys j_pkg in
      let i_core_set = core_cpuset a.sys i_core in
      let j_core_set = core_cpuset a.sys j_core in
      if ltb (size (intersection j_pkg_set a.result)) (size (intersection i_pkg_set a.result))
      then true
      else if ltb (size (intersection i_pkg_set a.from)) (size (intersection j_pkg_set a.from))
      then true
      else if ltb (size (intersection i_core_set a.from)) (size (intersection j_core_set a.from))
      then true
      else ltb_ℤ i_pkg j_pkg || ltb_ℤ i_core j_core

  unfoldable pub prefer : CpuAllocator → ℤ → ℤ → Bool
  unfolding package_of preferred
  prefer a i j = elim (package_of a.sys i) [
    | none ↦ false
    | some i_pkg ↦ elim (package_of a.sys j) [
      | none ↦ false
      | some j_pkg ↦ preferred a i_pkg j_pkg i j
    ]
  ]

  -- Whether the sort by preference finds the package of every CPU; else it reads a nil package.
  unfoldable pub packages_known : System → List ℤ → Bool
  packages_known sys [] = true
  packages_known sys (id ∷ ids) = elim (package_of sys id) [
    | none ↦ false
    | some pkg ↦ elim (package_at sys pkg) [ none ↦ false | some p ↦ packages_known sys ids ]
  ]

  module _ ⦃g : GoRuntime⦄ where
    open g use {sort_slice}

    unfoldable pub take_idle_packages : CpuAllocator → CpuAllocator
    take_idle_packages a =
        let pkgs = pick (package_ids a.sys) (some λ id. is_idle a (online_package a.sys id)) in
        take_fitting (online_package a.sys) (sort_slice (λ i j. ltb_ℤ i j) pkgs) a

    unfoldable pub take_idle_cores : CpuAllocator → Outcome Error CpuAllocator
    take_idle_cores a =
        let cores = pick (cpu_ids a.sys) (some (passes (first_of_idle_core a))) in
        if filter_panics (first_of_idle_core a) (cpu_ids a.sys)
        then panic
        else ok (take_fitting (online_core a.sys) (sort_slice (λ i j. ltb_ℤ i j) cores) a)

    unfoldable pub take_idle_threads : CpuAllocator → Outcome Error CpuAllocator
    take_idle_threads a =
        let cores = pick (cpu_ids a.sys) (some (contains (difference a.from (offlined a.sys)))) in
        if leb 2 (length cores) && not (packages_known a.sys cores)
        then panic
        else ok (take_each (sort_slice (prefer a) cores) a)

    -- `allocate` in three steps: each but the last ends the call once no CPU is wanted any more.
    unfoldable pub after_threads : CpuAllocator → CpuAllocator × Outcome Error CPUSet
    after_threads a = elim (take_idle_threads a) [
      | ok b ↦ (b, ok (if b.cnt == pos 0 then b.result else new_cpuset []))
      | err e ↦ (a, err e)
      | panic ↦ (a, panic)
    ]

    unfoldable pub after_cores : CpuAllocator → CpuAllocator × Outcome Error CPUSet
    after_cores a =
        if nat_beq (bit_and a.flags alloc_idle_cores) 0
        then after_threads a
        else elim (take_idle_cores a) [
          | ok b ↦ if b.cnt == pos 0 then (b, ok b.result) else after_threads b
          | err e ↦ (a, err e)
          | panic ↦ (a, panic)
        ]

    unfoldable pub allocate : CpuAllocator → CpuAllocator × Outcome Error CPUSet
    allocate a =
        if nat_beq (bit_and a.flags alloc_idle_packages) 0
        then after_cores a
        else (let b = take_idle_packages a in
            if b.cnt == pos 0 then (b, ok b.result) else after_cores b)

    -- `allocateCpus(from, cnt)`: the set that is left in `*from`, and the CPUs. A nil allocator is
    -- a nil dereference.
    unfoldable pub allocate_cpus : Option System → CPUSet → ℤ → CPUSet × Outcome Error CPUSet
    allocate_cpus system from cnt =
        if ltb_ℤ (pos (size from)) cnt
        then (from, err (not_enough_cpus cnt))
        else if pos (size from) == cnt
        then (new_cpuset [], ok from)
        else elim (new_cpu_allocator system none) [
          | none ↦ (from, panic)
          | some a ↦ let (b, out) = allocate (record a { from = from; cnt = cnt }) in (b.from, out)
        ]

    -- `ReleaseCpus(from, cnt)`
    unfoldable pub release_cpus : Option System → CPUSet → ℤ → CPUSet × Outcome Error CPUSet
    release_cpus system from cnt = allocate_cpus system from (pos (size from) -ℤ cnt)
