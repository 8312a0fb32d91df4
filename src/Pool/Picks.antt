-- ===== src/Pool/Picks.antt =====
-- cmd/cpu-pool-policy/pool/pool.go: what the loop of `prepareReservedPool` is to pick, and where it
-- stops.
use cpu_policy_plugins_for_k.Prelude.{
  ℕ, ◌+◌, ◌≤◌, ◌<◌, ◌≡◌, true, false, none, some, List, [], ◌∷◌, string_eq, ◌==◌, take, arith, elem,
  length, length-take, Bool-cases, inl, inr, sym, ap, ◌∙◌,
}
use cpu_policy_plugins_for_k.Prelude.Int.{ℤ, int_eq, int_beq_iff, ltb_ℤ, ltb_ℤ-trans}
use cpu_policy_plugins_for_k.Cpuset.{
  Cpusets, Subset, Disjoint, Ascending-take, elem-take, to_slice_of_members, Ascending,
  ltb_ℤ_of_Above,
}
use cpu_policy_plugins_for_k.Sysfs.{System, cpu_at, thread_cpuset}

module _ ⦃c : Cpusets⦄ where
  open c use {
    CPUSet, new_cpuset, contains, size, union, difference, to_slice, contains-new, contains-union,
    contains-difference, elem-to_slice, to_slice-Ascending, size_lem,
  }

  -- The CPU set of a CPU's hyperthreads, as the loop reads it.
  abbrev pub threads_of : System → ℤ → CPUSet
  threads_of sys id = elim (cpu_at sys id) [ none ↦ new_cpuset [] | some cpu ↦ thread_cpuset cpu ]

  -- The first CPUs of a set.
  abbrev pub first : ℕ → CPUSet → CPUSet
  first n s = new_cpuset (take n (to_slice s))

  pub size-first : (n : ℕ) (s : CPUSet) → n ≤ size s → size (first n s) ≡ n
  size-first n s enough =
      let xs = take n (to_slice s) in
      omega (
        arith,
        size_lem (first n s),
        size_lem s,
        length-take n (to_slice s),
        ap length (
            to_slice_of_members (first n s) xs
              (Ascending-take n (to_slice s) (to_slice-Ascending s)) λ x. sym (contains-new xs x)),
      )

  pub first-Subset : (n : ℕ) (s : CPUSet) → Subset (first n s) s
  first-Subset n s x h =
      ground
        (arith, contains-new (take n (to_slice s)) x, elem-take n (to_slice s) x, elem-to_slice s x)

  -- What is picked beyond `cset` are hyperthreads of the ids.
  abbrev pub FromThreads : System → List ℤ → CPUSet → CPUSet → Type 0
  FromThreads sys ids cset s =
      (y : ℤ)
      → contains s y ≡ true
      → contains cset y ≡ false
      → (id : ℤ) × (elem id ids ≡ true) × (contains (threads_of sys id) y ≡ true)

  -- A hyperthread is picked beyond `cset` only if all hyperthreads of the lower ids are: if `y` is
  -- picked and is none of the ids below `j`, then all of those below `j` are picked.
  abbrev pub LowestFirst : System → List ℤ → CPUSet → CPUSet → Type 0
  LowestFirst sys ids cset s =
      (j y : ℤ)
      → contains s y ≡ true
      → contains cset y ≡ false
      → ((k : ℤ) → elem k ids ≡ true → ltb_ℤ k j ≡ true → contains (threads_of sys k) y ≡ false)
      → (i x : ℤ) → elem i ids ≡ true
      → ltb_ℤ i j ≡ true
      → contains (threads_of sys i) x ≡ true
      → contains s x ≡ true

  -- The loop has picked `s` on top of `cset`, and still wants `m` CPUs; if it wants some, then it
  -- has picked all hyperthreads of the ids.
  pub record Picked (sys : System) (ids : List ℤ) (cset : CPUSet) (n : ℕ) (s : CPUSet) (m : ℕ)
      : Type 0 where
    pub total : size s + m ≡ size cset + n
    pub kept : Subset cset s
    pub exhausted :
        0 < m
        → (id x : ℤ) → elem id ids ≡ true
        → contains (threads_of sys id) x ≡ true
        → contains s x ≡ true
    pub inside : FromThreads sys ids cset s
    pub lowest : Ascending ids → LowestFirst sys ids cset s

  -- The hyperthreads of a CPU that are not picked yet.
  abbrev pub new_threads : System → ℤ → CPUSet → CPUSet
  new_threads sys id cset = difference (threads_of sys id) cset

  module _ (sys : System) (id : ℤ) (ids : List ℤ) (cset : CPUSet) where
    abbrev more_threads : CPUSet
    more_threads = new_threads sys id cset

    pub more_threads-Disjoint : Disjoint cset more_threads
    more_threads-Disjoint x = ground (arith, contains-difference (threads_of sys id) cset x)

    -- The loop ends at the first id, with some of its hyperthreads.
    pub stopped-FromThreads :
        (t : CPUSet) → Subset t more_threads → FromThreads sys (id ∷ ids) cset (union cset t)
    stopped-FromThreads t part y picked new = (
      id,
      ground (arith, int_beq_iff id id),
      ground (
        arith,
        picked,
        new,
        contains-union cset t y,
        part y,
        contains-difference (threads_of sys id) cset y,
      ),
    )

    -- A hyperthread of the first id leaves no id below.
    pub nothing_below :
        (j y i : ℤ)
        → Ascending (id ∷ ids)
        → contains (threads_of sys id) y ≡ true
        → ((k : ℤ)
            → elem k (id ∷ ids) ≡ true
            → ltb_ℤ k j ≡ true
            → contains (threads_of sys k) y ≡ false)
        → elem i (id ∷ ids) ≡ true
        → ltb_ℤ i j ≡ false
    nothing_below j y i up of_id above at =
        let here : elem id (id ∷ ids) ≡ true = ground (arith, int_beq_iff id id) in
        let not_below : ltb_ℤ id j ≡ false = elim (Bool-cases (ltb_ℤ id j)) [
          | inr fine ↦ fine
          | inl below ↦ absurd (cc (above id here below, of_id))
        ] in
        elim (Bool-cases (id == i)) [
          | inl same ↦ ap (λ (k : ℤ). ltb_ℤ k j) (sym ((int_beq_iff id i).0 same)) ∙ not_below
          | inr other ↦ elim (Bool-cases (ltb_ℤ i j)) [
            | inr fine ↦ fine
            | inl low ↦
                let above_id = ltb_ℤ_of_Above id ids up.0 i (ground (arith, at, other)) in
                absurd (cc (ltb_ℤ-trans id i j above_id low, not_below))
          ]
        ]

    pub stopped-LowestFirst :
        (t : CPUSet)
        → Subset t more_threads
        → Ascending (id ∷ ids)
        → LowestFirst sys (id ∷ ids) cset (union cset t)
    stopped-LowestFirst t part up j y picked new above i x at low h =
        let of_id : contains (threads_of sys id) y ≡ true = ground (
          arith,
          picked,
          new,
          contains-union cset t y,
          part y,
          contains-difference (threads_of sys id) cset y,
        ) in
        absurd (cc (nothing_below j y i up of_id above at, low))
