-- ===== src/Allocator/Faults.antt =====
-- pkg/cpuallocator/allocator.go: where the allocator panics, and where it loses CPUs.
use Prim.Native.Nat.{bit_and}
use cpu_policy_plugins_for_k.Prelude.{
  ℕ, ◌+◌, ◌-◌, ◌<◌, ◌≡◌, refl, ap, ◌∙◌, Bool, true, false, not, ◌&&◌, List, [], ◌∷◌, arith, elem,
  Option, none, some, ◌==◌, nat_beq,
}
use cpu_policy_plugins_for_k.Prelude.GoMap.{keys}
use cpu_policy_plugins_for_k.Prelude.Int.{ℤ, pos, negsuc, int_eq, int_beq_iff, ◌-ℤ◌, leb_ℤ}
use cpu_policy_plugins_for_k.Prelude.Outcome.{ok, panic}
use cpu_policy_plugins_for_k.Cpuset.{Cpusets}
use cpu_policy_plugins_for_k.Runtime.{GoRuntime, elem-sort_slice}
use cpu_policy_plugins_for_k.Sysfs.{System, entries, cpu_ids}
use cpu_policy_plugins_for_k.Allocator.{
  CpuAllocator, take_idle_packages, take_idle_cores, take_fitting, take_set, take_each, prefer,
  online_core, is_idle, is_first, first_of_idle_core, filter_panics, after_threads, after_cores,
  allocate, allocate_cpus, release_cpus, new_cpu_allocator,
}
use cpu_policy_plugins_for_k.Allocator.Topology.{IsWellFormed, Online}
use cpu_policy_plugins_for_k.Allocator.Threads.{
  elem-cpu_ids, threads, elem-threads, take_idle_threads_lem,
}
use cpu_policy_plugins_for_k.Allocator.Idle.{idle_cores, take_idle_cores_lem}
use cpu_policy_plugins_for_k.Allocator.Partition.{start, allocate_fewer, left_and_out}

pos-sub_below : (m k : ℕ) → m < k → pos m -ℤ pos k ≡ negsuc (k - m - 1)
unfolding ◌-ℤ◌
pos-sub_below m k h = ground arith

module _ ⦃c : Cpusets⦄ where
  open c use {
    CPUSet, new_cpuset, contains, size, equals, equals_iff, intersection, contains-intersection,
    difference, contains-difference, contains-new, to_slice, elem-to_slice,
  }

  -- The empty set counts as idle.
  empty_idle : (a : CpuAllocator) (s : CPUSet) → to_slice s ≡ [] → is_idle a s ≡ true
  unfolding is_idle
  empty_idle a s e = (equals_iff (intersection s a.from) s).1 λ x.
      ground (
        arith,
        contains-intersection s a.from x,
        elem-to_slice s x,
        ap (λ (l : List ℤ). elem x l) e,
      )

  offline_core_faults :
      (a : CpuAllocator) (i : ℤ)
      → to_slice (online_core a.sys i) ≡ []
      → first_of_idle_core a i ≡ none
  unfolding first_of_idle_core
  offline_core_faults a i e = rw (empty_idle a (online_core a.sys i) e) (ap (is_first i) e)

  filter_panics_lem :
      (f : ℤ → Option Bool) (ids : List ℤ) (i : ℤ)
      → elem i ids ≡ true
      → f i ≡ none
      → filter_panics f ids ≡ true
  unfolding filter_panics
  filter_panics_lem f [] i m e = cc
  filter_panics_lem f (j ∷ ids) i m e = ground (arith, int_beq_iff j i, filter_panics_lem f ids i)

  -- With a negative count the loops over packages and cores take nothing.
  take_fitting_negative :
      (set_of : ℤ → CPUSet) (ids : List ℤ) (a : CpuAllocator) (k : ℕ)
      → a.cnt ≡ negsuc k
      → take_fitting set_of ids a ≡ a
  unfolding take_fitting
  take_fitting_negative set_of [] a k e = refl
  take_fitting_negative set_of (i ∷ ids) a k e =
      let refused : leb_ℤ (pos (size (set_of i))) a.cnt ≡ false = ground arith in
      rw refused (take_fitting_negative set_of ids a k e)

  taken_below :
      (i : ℤ) (a : CpuAllocator) (k : ℕ)
      → a.cnt ≡ negsuc k
      → (take_set (new_cpuset (i ∷ [])) a).cnt ≡ negsuc (k + size (new_cpuset (i ∷ [])))
  unfolding take_set ◌-ℤ◌
  taken_below i a k e = ground arith

  without :
      (i : ℤ) (ids : List ℤ) (a : CpuAllocator) (x : ℤ)
      → (contains (take_set (new_cpuset (i ∷ [])) a).from x && not (elem x ids))
        ≡ contains a.from x && not (elem x (i ∷ ids))
  unfolding take_set
  without i ids a x =
      ground (arith, contains-difference a.from (new_cpuset (i ∷ [])) x, contains-new (i ∷ []) x)

  -- And the loop over threads never stops before its end.
  take_each_negative :
      (ids : List ℤ) (a : CpuAllocator) (k : ℕ)
      → a.cnt ≡ negsuc k
      → ((m : ℕ) × ((take_each ids a).cnt ≡ negsuc m))
        × ((x : ℤ) → contains (take_each ids a).from x ≡ contains a.from x && not (elem x ids))
  unfolding take_each
  take_each_negative [] a k e = ((k, e), λ x. ground arith)
  take_each_negative (i ∷ ids) a k e =
      let taken = take_set (new_cpuset (i ∷ [])) a in
      let below : taken.cnt ≡ negsuc (k + size (new_cpuset (i ∷ []))) = taken_below i a k e in
      let (ends, left) = take_each_negative ids taken (k + size (new_cpuset (i ∷ []))) below in
      let on : (taken.cnt == pos 0) ≡ false = ground (arith, below) in
      rw on (ends, λ x. left x ∙ without i ids a x)

  module _ ⦃g : GoRuntime⦄ where
    open g use {sort_slice}

    -- `takeIdleCores` panics as soon as all threads of some CPU's core are offline.
    pub take_idle_cores_panics :
        (a : CpuAllocator) (i : ℤ)
        → elem i (keys (entries a.sys.cpus)) ≡ true
        → to_slice (online_core a.sys i) ≡ []
        → take_idle_cores a ≡ panic
    unfolding take_idle_cores
    take_idle_cores_panics a i m e = ground (
      arith,
      filter_panics_lem (first_of_idle_core a) (cpu_ids a.sys) i (elem-cpu_ids a.sys i ∙ m)
          (offline_core_faults a i e),
    )

    after_cores_panics :
        (b : CpuAllocator)
        → nat_beq (bit_and b.flags 4) 0 ≡ false
        → take_idle_cores b ≡ panic
        → (after_cores b).1 ≡ panic
    unfolding after_cores
    after_cores_panics b flag e = rw flag (rw (e, after_cores))

    take_fitting_same :
        (set_of : ℤ → CPUSet) (ids : List ℤ) (a : CpuAllocator)
        → ((take_fitting set_of ids a).sys ≡ a.sys) × ((take_fitting set_of ids a).flags ≡ a.flags)
    unfolding take_fitting take_set
    take_fitting_same set_of [] a = (refl, refl)
    take_fitting_same set_of (i ∷ ids) a = ground (
      arith,
      take_fitting_same set_of ids a,
      take_fitting_same set_of ids (take_set (set_of i) a),
    )

    packages_same :
        (a : CpuAllocator)
        → ((take_idle_packages a).sys ≡ a.sys) × ((take_idle_packages a).flags ≡ a.flags)
    unfolding take_idle_packages
    packages_same a = take_fitting_same _ _ a

    allocate_panics :
        (a : CpuAllocator)
        → a.flags ≡ 5
        → ((take_idle_packages a).cnt == pos 0) ≡ false
        → take_idle_cores (take_idle_packages a) ≡ panic
        → (allocate a).1 ≡ panic
    unfolding allocate
    allocate_panics a flags more e =
        let b = take_idle_packages a in
        let p : nat_beq (bit_and a.flags 1) 0 ≡ false = rw flags refl in
        let q : nat_beq (bit_and b.flags 4) 0 ≡ false = rw ((packages_same a).1, flags) refl in
        rw (p, more) (after_cores_panics b q e)

    -- If the set has more CPUs than are asked for, and the whole packages do not make up that number,
    -- then an allocation panics as soon as the machine has one core whose threads are all offline, even outside the set.
    pub allocate_cpus_panics :
        (sys : System) (from : CPUSet) (n : ℕ) (i : ℤ)
        → n < size from
        → ((take_idle_packages (start sys from n)).cnt == pos 0) ≡ false
        → elem i (keys (entries sys.cpus)) ≡ true
        → to_slice (online_core sys i) ≡ []
        → (allocate_cpus (some sys) from (pos n)).1 ≡ panic
    allocate_cpus_panics sys from n i fewer more m e =
        let b = take_idle_packages (start sys from n) in
        let same = (packages_same (start sys from n)).0 in
        rw (allocate_fewer sys from n (omega arith) (ground arith)) (
          allocate_panics (start sys from n) refl more
            (take_idle_cores_panics b i (rw same m) (rw same e)))

    -- The allocator that a call with a negative count begins with.
    abbrev below_zero : System → CPUSet → ℕ → CpuAllocator
    below_zero sys from k = record (start sys from 0) { cnt = negsuc k }

    allocate-below_zero :
        (sys : System) (from : CPUSet) (k : ℕ)
        → allocate_cpus (some sys) from (negsuc k) ≡ left_and_out (allocate (below_zero sys from k))
    unfolding allocate_cpus new_cpu_allocator
    allocate-below_zero sys from k = ground arith

    packages_below_zero :
        (sys : System) (from : CPUSet) (k : ℕ)
        → take_idle_packages (below_zero sys from k) ≡ below_zero sys from k
    unfolding take_idle_packages
    packages_below_zero sys from k = take_fitting_negative _ _ (below_zero sys from k) k refl

    module _ (sys : System) (from : CPUSet) (k : ℕ) (w : IsWellFormed sys)
        (online : Online sys from) where
      cores_below_zero : take_idle_cores (below_zero sys from k) ≡ ok (below_zero sys from k)
      cores_below_zero =
          take_idle_cores_lem (below_zero sys from k) w
          ∙ ap ok (take_fitting_negative _ (idle_cores (below_zero sys from k) w) _ k refl)

      abbrev last : CpuAllocator
      last =
          take_each (sort_slice (prefer (below_zero sys from k)) (threads (below_zero sys from k)))
            (below_zero sys from k)

      last_facts : ((last.cnt == pos 0) ≡ false) × ((x : ℤ) → contains last.from x ≡ false)
      last_facts =
          let a = below_zero sys from k in
          let ((m, e), left) = take_each_negative (sort_slice (prefer a) (threads a)) a k refl in
          (
            ground (arith, e),
            λ x. ground (
              arith,
              left x,
              elem-sort_slice (prefer a) (threads a) x,
              elem-threads a w online x,
            ),
          )

      after_threads-below_zero : after_threads (below_zero sys from k) ≡ (last, ok (new_cpuset []))
      unfolding after_threads
      after_threads-below_zero =
          rw (take_idle_threads_lem (below_zero sys from k) w online, after_threads)
            (rw last_facts.0)

      allocate_negative : allocate (below_zero sys from k) ≡ (last, ok (new_cpuset []))
      unfolding allocate after_cores
      allocate_negative =
          rw (packages_below_zero sys from k)
            (rw (cores_below_zero, after_cores) after_threads-below_zero)

    -- On a well-formed machine and from a set of online CPUs, `ReleaseCpus` with a count above the
    -- set's size empties the set, returns no CPU, and reports
    -- no error: the CPUs are lost.
    pub release_cpus_loses :
        (sys : System) (from : CPUSet) (cnt : ℕ)
        → IsWellFormed sys
        → Online sys from
        → size from < cnt
        → ((release_cpus (some sys) from (pos cnt)).1 ≡ ok (new_cpuset []))
          × ((x : ℤ) → contains (release_cpus (some sys) from (pos cnt)).0 x ≡ false)
    unfolding release_cpus
    release_cpus_loses sys from cnt w online more =
        let k = cnt - size from - 1 in
        let e : pos (size from) -ℤ pos cnt ≡ negsuc k = pos-sub_below (size from) cnt more in
        rw (e, allocate-below_zero sys from k, allocate_negative sys from k w online)
          (refl, (last_facts sys from k w online).1)
