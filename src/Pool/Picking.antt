-- ===== src/Pool/Picking.antt =====
-- cmd/cpu-pool-policy/pool/pool.go: the loop of `prepareReservedPool`, iteration by iteration.
use cpu_policy_plugins_for_k.Prelude.{
  ℕ, ◌-◌, ◌<◌, ◌≡◌, refl, true, false, List, [], ◌∷◌, string_eq, ◌==◌, arith, Bool-cases, inl, inr,
  ap, ◌∙◌, ltb, ltb→lt, nat_beq,
}
use cpu_policy_plugins_for_k.Prelude.Int.{ℤ, pos, int_eq, int_beq_iff}
use cpu_policy_plugins_for_k.Prelude.Outcome.{ok}
use cpu_policy_plugins_for_k.Cpuset.{Cpusets, size-union}
use cpu_policy_plugins_for_k.Sysfs.{System}
use cpu_policy_plugins_for_k.Allocator.Taking.{pos-sub}
use cpu_policy_plugins_for_k.Pool.Reserve.{reserve_loop}
use cpu_policy_plugins_for_k.Pool.Picks.{
  threads_of, first, size-first, first-Subset, new_threads, more_threads-Disjoint, Picked,
  stopped-FromThreads, nothing_below, stopped-LowestFirst,
}

module _ ⦃c : Cpusets⦄ where
  open c use {
    CPUSet, new_cpuset, contains, size, union, difference, to_slice, contains-new, contains-union,
    contains-difference, elem-to_slice, to_slice-Ascending, size_lem,
  }

  module _ (sys : System) (id : ℤ) (ids : List ℤ) (cset : CPUSet) (n : ℕ) where
    abbrev more_threads : CPUSet
    more_threads = new_threads sys id cset

    reserve_part :
        n < size more_threads
        → reserve_loop sys (id ∷ ids) cset (pos n) ≡ ok (union cset (first n more_threads), pos 0)
    unfolding reserve_loop
    reserve_part fewer = ground (arith, fewer)

    reserve_all :
        size more_threads ≡ n
        → reserve_loop sys (id ∷ ids) cset (pos n) ≡ ok (union cset more_threads, pos 0)
    unfolding reserve_loop
    reserve_all same = ground (arith, same, pos-sub n (size more_threads) (omega arith))

    reserve_more :
        size more_threads < n
        → reserve_loop sys (id ∷ ids) cset (pos n)
          ≡ reserve_loop sys ids (union cset more_threads) (pos (n - size more_threads))
    unfolding reserve_loop
    reserve_more more = ground (arith, more, pos-sub n (size more_threads) (omega arith))

    Picked-part :
        n < size more_threads → Picked sys (id ∷ ids) cset n (union cset (first n more_threads)) 0
    Picked-part fewer = record {
      total = omega (
        arith,
        size-first n more_threads (omega arith),
        size-union cset (first n more_threads) (λ x.
            ground (arith, first-Subset n more_threads x, more_threads-Disjoint sys id ids cset x)),
      );
      kept = λ x h. ground (arith, contains-union cset (first n more_threads) x);
      exhausted = λ more. absurd (omega arith);
      inside =
          stopped-FromThreads sys id ids cset (first n more_threads) (first-Subset n more_threads);
      lowest =
          stopped-LowestFirst sys id ids cset (first n more_threads) (first-Subset n more_threads);
    }

    Picked-all : size more_threads ≡ n → Picked sys (id ∷ ids) cset n (union cset more_threads) 0
    Picked-all same = record {
      total = omega (arith, size-union cset more_threads (more_threads-Disjoint sys id ids cset));
      kept = λ x h. ground (arith, contains-union cset more_threads x);
      exhausted = λ more. absurd (omega arith);
      inside = stopped-FromThreads sys id ids cset more_threads (λ x h. h);
      lowest = stopped-LowestFirst sys id ids cset more_threads (λ x h. h);
    }

    not_yet :
        (y : ℤ)
        → contains cset y ≡ false
        → contains (threads_of sys id) y ≡ false
        → contains (union cset more_threads) y ≡ false
    not_yet y new beyond = ground (
      arith,
      new,
      beyond,
      contains-union cset more_threads y,
      contains-difference (threads_of sys id) cset y,
    )

    taken :
        (x : ℤ)
        → contains (threads_of sys id) x ≡ true
        → contains (union cset more_threads) x ≡ true
    taken x h = ground (
      arith,
      h,
      contains-union cset more_threads x,
      contains-difference (threads_of sys id) cset x,
    )

    Picked-more :
        (s : CPUSet) (m : ℕ)
        → size more_threads < n
        → Picked sys ids (union cset more_threads) (n - size more_threads) s m
        → Picked sys (id ∷ ids) cset n s m
    Picked-more s m more q = record {
      total =
          omega
            (arith, q.total, size-union cset more_threads (more_threads-Disjoint sys id ids cset));
      kept = λ x h. q.kept x (ground (arith, contains-union cset more_threads x));
      exhausted = λ want i x at h. elim (Bool-cases (id == i)) [
        | inl same ↦
            let e : id ≡ i = (int_beq_iff id i).0 same in
            q.kept x (
              ground (
                arith,
                contains-union cset more_threads x,
                contains-difference (threads_of sys id) cset x,
                ap (λ (j : ℤ). contains (threads_of sys j) x) e,
              ))
        | inr other ↦ q.exhausted want i x (ground arith) h
      ];
      inside = λ y picked new. elim (Bool-cases (contains (threads_of sys id) y)) [
        | inl of_id ↦ (id, ground (arith, int_beq_iff id id), of_id)
        | inr beyond ↦
            let (k, at, h) = q.inside y picked (not_yet y new beyond) in (k, ground (arith, at), h)
      ];
      lowest = λ up j y picked new above i x at low h.
          elim (Bool-cases (contains (threads_of sys id) y)) [
            | inl of_id ↦ absurd (cc (nothing_below sys id ids cset j y i up of_id above at, low))
            | inr beyond ↦ elim (Bool-cases (id == i)) [
              | inl same ↦
                  let is =
                    ap (λ (k : ℤ). contains (threads_of sys k) x) ((int_beq_iff id i).0 same) in
                  q.kept x (taken x (is ∙ h))
              | inr other ↦
                  q.lowest up.1 j y picked (not_yet y new beyond)
                    (λ k m below. above k (ground (arith, m)) below) i x (ground (arith, at, other))
                    low h
            ]
          ];
    }

  pub reserve_loop_lem :
      (sys : System) (ids : List ℤ) (cset : CPUSet) (n : ℕ)
      → (s : CPUSet) × (m : ℕ) × (reserve_loop sys ids cset (pos n) ≡ ok (s, pos m))
        × Picked sys ids cset n s m
  unfolding reserve_loop
  reserve_loop_lem sys [] cset n = (
    cset,
    n,
    refl,
    record {
      total = refl;
      kept = λ x h. h;
      exhausted = λ more id x m h. ground arith;
      inside = λ y picked new. absurd (cc (picked, new));
      lowest = λ up j y picked new above i x at. absurd (ground arith);
    },
  )
  reserve_loop_lem sys (id ∷ ids) cset n =
      let t = new_threads sys id cset in
      elim (Bool-cases (ltb n (size t))) [
        | inl fewer ↦ (
          union cset (first n t),
          0,
          reserve_part sys id ids cset n (ltb→lt n (size t) fewer),
          Picked-part sys id ids cset n (ltb→lt n (size t) fewer),
        )
        | inr enough ↦ elim (Bool-cases (nat_beq (size t) n)) [
          | inl same ↦ (
            union cset t,
            0,
            reserve_all sys id ids cset n (ground arith),
            Picked-all sys id ids cset n (ground arith),
          )
          | inr other ↦
              let more : size t < n = ground arith in
              let (s, m, e, q) = reserve_loop_lem sys ids (union cset t) (n - size t) in
              (
                s,
                m,
                reserve_more sys id ids cset n more ∙ e,
                Picked-more sys id ids cset n s m more q,
              )
        ]
      ]
