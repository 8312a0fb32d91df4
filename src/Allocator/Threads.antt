-- ===== src/Allocator/Threads.antt =====
-- pkg/cpuallocator/allocator.go: `takeIdleThreads` finds every CPU that is wanted.
use cpu_policy_plugins_for_k.Prelude.{
  ℕ, ◌+◌, ◌≤◌, ◌<◌, ◌≡◌, true, List, [], ◌∷◌, arith, length, elem, elem-count, count-select,
  elem-select, select, Distinct, ◌==◌, Bool-cases, inl, inr, ==-refl, sym, ◌∙◌,
}
use cpu_policy_plugins_for_k.Prelude.GoMap.{keys}
use cpu_policy_plugins_for_k.Prelude.Int.{ℤ, pos, int_eq, int_beq_iff, ◌-ℤ◌}
use cpu_policy_plugins_for_k.Prelude.Outcome.{ok}
use cpu_policy_plugins_for_k.Cpuset.{Cpusets, size-singleton, size-new, size_ext}
use cpu_policy_plugins_for_k.Runtime.{
  GoRuntime, elem-SameItems, Distinct-SameItems, elem-sort_slice, Distinct-sort_slice,
}
use cpu_policy_plugins_for_k.Sysfs.{System, entries, cpu_ids, offlined}
use cpu_policy_plugins_for_k.Allocator.{
  CpuAllocator, pick, take_set, take_each, take_idle_threads, packages_known, prefer,
}
use cpu_policy_plugins_for_k.Allocator.Topology.{IsWellFormed, Online, packages_known_lem}
use cpu_policy_plugins_for_k.Allocator.Taking.{Progress, take_set-Progress}

module _ ⦃c : Cpusets⦄ where
  open c use {
    CPUSet, new_cpuset, contains, size, union, difference, contains-new, contains-difference,
  }

  take_one :
      {sys : System} {whole : CPUSet} {n : ℕ} (i : ℤ) (a : CpuAllocator)
      (p : Progress sys whole n a)
      → contains a.from i ≡ true
      → 0 < p.wanted
      → (q : Progress sys whole n (take_set (new_cpuset (i ∷ [])) a)) × (q.wanted + 1 ≡ p.wanted)
  unfolding take_set ◌-ℤ◌
  take_one i a p inside more =
      let q =
        take_set-Progress (new_cpuset (i ∷ [])) a p
          (λ x h. ground (arith, contains-new (i ∷ []) x, int_beq_iff i x))
          (omega (arith, size-singleton i)) in
      (q, ground (arith, q.cnt_lem, p.cnt_lem, size-singleton i))

  take_one_inside :
      (i : ℤ) (ids : List ℤ) (a : CpuAllocator)
      → Distinct (i ∷ ids)
      → ((j : ℤ) → elem j (i ∷ ids) ≡ true → contains a.from j ≡ true)
      → (j : ℤ) → elem j ids ≡ true
      → contains (take_set (new_cpuset (i ∷ [])) a).from j ≡ true
  unfolding take_set
  take_one_inside i ids a d inside j m = ground (
    arith,
    contains-difference a.from (new_cpuset (i ∷ [])) j,
    contains-new (i ∷ []) j,
    inside j (ground arith),
    d j,
    elem-count j ids,
    int_beq_iff i j,
  )

  -- The loop over threads ends with nothing wanted, if there are threads enough.
  pub take_each-Progress :
      {sys : System} {whole : CPUSet} {n : ℕ} (ids : List ℤ) (a : CpuAllocator)
      (p : Progress sys whole n a)
      → Distinct ids
      → ((i : ℤ) → elem i ids ≡ true → contains a.from i ≡ true)
      → 0 < p.wanted
      → p.wanted ≤ length ids
      → Progress sys whole n (take_each ids a) × ((take_each ids a).cnt ≡ pos 0)
  unfolding take_each
  take_each-Progress [] a p d inside more enough = absurd (omega arith)
  take_each-Progress (i ∷ ids) a p d inside more enough =
      let (q, one) = take_one i a p (inside i (ground (arith, ==-refl i))) more in
      elim (Bool-cases ((take_set (new_cpuset (i ∷ [])) a).cnt == pos 0)) [
        | inl done ↦ rw done (q, (int_beq_iff _ (pos 0)).0 done)
        | inr on ↦ rw on (
            take_each-Progress ids (take_set (new_cpuset (i ∷ [])) a) q (λ x. ground (arith, d x))
              (take_one_inside i ids a d inside) (ground (arith, q.cnt_lem)) (omega (arith, one)))
      ]

  module _ ⦃g : GoRuntime⦄ where
    open g use {sort_slice, range_ids, range_ids-SameItems}

    pub cpu_ids-Distinct : {sys : System} → IsWellFormed sys → Distinct (cpu_ids sys)
    unfolding cpu_ids
    cpu_ids-Distinct {sys} w =
        Distinct-SameItems _ (keys (entries sys.cpus)) (range_ids-SameItems "CpuIds" _)
          w.cpus_distinct

    pub elem-cpu_ids :
        (sys : System) (x : ℤ) → elem x (cpu_ids sys) ≡ elem x (keys (entries sys.cpus))
    unfolding cpu_ids
    elem-cpu_ids sys = elem-SameItems _ (keys (entries sys.cpus)) (range_ids-SameItems "CpuIds" _)

    -- The threads that `takeIdleThreads` takes from.
    abbrev pub threads : CpuAllocator → List ℤ
    threads a = select (contains (difference a.from (offlined a.sys))) (cpu_ids a.sys)

    module _ (a : CpuAllocator) (w : IsWellFormed a.sys) (online : Online a.sys a.from) where
      threads-Distinct : Distinct (threads a)
      threads-Distinct x = ground (
        arith,
        count-select (contains (difference a.from (offlined a.sys))) x (cpu_ids a.sys),
        cpu_ids-Distinct w x,
      )

      pub elem-threads : (x : ℤ) → elem x (threads a) ≡ contains a.from x
      elem-threads x = ground (
        arith,
        elem-select (contains (difference a.from (offlined a.sys))) x (cpu_ids a.sys),
        contains-difference a.from (offlined a.sys) x,
        elem-cpu_ids a.sys x,
        online x,
      )

      length-sort_threads : length (sort_slice (prefer a) (threads a)) ≡ size a.from
      length-sort_threads =
          sym (size-new _ (Distinct-sort_slice (prefer a) (threads a) threads-Distinct))
          ∙ size_ext _ a.from
              λ x. contains-new _ x ∙ (elem-sort_slice (prefer a) (threads a) x ∙ elem-threads x)

      threads_known : packages_known a.sys (threads a) ≡ true
      threads_known =
          packages_known_lem w (threads a) λ i m. (online i (ground (arith, elem-threads i))).0

      pub take_idle_threads_lem :
          take_idle_threads a ≡ ok (take_each (sort_slice (prefer a) (threads a)) a)
      unfolding take_idle_threads pick
      take_idle_threads_lem = ground (arith, threads_known)

    -- With CPUs enough in `from`, all of them online, no CPU stays wanted.
    pub take_idle_threads-Progress :
        {sys : System} {whole : CPUSet} {n : ℕ} (a : CpuAllocator)
        → IsWellFormed a.sys
        → Online a.sys a.from
        → (p : Progress sys whole n a) → 0 < p.wanted
        → p.wanted ≤ size a.from
        → (b : CpuAllocator) × (take_idle_threads a ≡ ok b)
          × Progress sys whole n b
          × (b.cnt ≡ pos 0)
    take_idle_threads-Progress a w online p more enough =
        let (q, done) =
          take_each-Progress (sort_slice (prefer a) (threads a)) a p
            (Distinct-sort_slice (prefer a) (threads a) (threads-Distinct a w online))
            (λ i m.
              ground (arith, elem-sort_slice (prefer a) (threads a) i, elem-threads a w online i))
            more (omega (arith, length-sort_threads a w online)) in
        (take_each (sort_slice (prefer a) (threads a)) a, take_idle_threads_lem a w online, q, done)
