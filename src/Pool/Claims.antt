-- ===== src/Pool/Claims.antt =====
-- cmd/cpu-pool-policy/pool/pool.go: what one step of the loop of `prepareConfig` claims.
use cpu_policy_plugins_for_k.Prelude.{
  ◌≡◌, refl, Bool, true, false, not, ◌&&◌, ◌||◌, some, String, string_eq, ◌==◌, arith, Bool-cases,
  Option-cases, inl, inr, ◌⊎◌, sym, ap, ◌∙◌,
}
use cpu_policy_plugins_for_k.Prelude.GoMap.{get}
use cpu_policy_plugins_for_k.Prelude.Int.{ℤ, int_eq}
use cpu_policy_plugins_for_k.Prelude.Outcome.{Outcome, ok, after, after-ok}
use cpu_policy_plugins_for_k.Errors.{Error}
use cpu_policy_plugins_for_k.Cpuset.{Cpusets, Disjoint}
use cpu_policy_plugins_for_k.Sysfs.{System}
use cpu_policy_plugins_for_k.Config.{Config, NodeConfig, claim_leftover}
use cpu_policy_plugins_for_k.Pool.Reserve.{ht_siblings}
use cpu_policy_plugins_for_k.Pool.Prepare.{
  Preparing, leftover_of, note_leftover, set_leftover, claim_cpus, claim_siblings, configure_pool,
  prepare_pool,
}

module _ ⦃c : Cpusets⦄ where
  open c use {
    CPUSet, new_cpuset, contains, is_subset_of, union, difference, to_slice, contains-difference,
    is_subset_of_iff,
  }

  -- A CPU that a pool can still be given.
  abbrev pub is_free : Preparing → ℤ → Bool
  is_free v x = contains v.isolated x || contains v.available x

  -- A step leaves no CPU free that was not, keeps the isolated CPUs apart from the others, and frees
  -- none of the given CPUs.
  pub record Shrinks (v w : Preparing) : Type 0 where
    pub fewer : (x : ℤ) → is_free w x ≡ true → is_free v x ≡ true
    pub apart : Disjoint v.isolated v.available → Disjoint w.isolated w.available

  pub Shrinks-refl :
      (v w : Preparing) → w.isolated ≡ v.isolated → w.available ≡ v.available → Shrinks v w
  Shrinks-refl v w e f = record { fewer = rw (e, f) (λ x h. h); apart = rw (e, f) (λ d. d) }

  pub Shrinks-trans : (u v w : Preparing) → Shrinks u v → Shrinks v w → Shrinks u w
  Shrinks-trans u v w p q = record {
    fewer = λ x h. p.fewer x (q.fewer x h);
    apart = λ d. q.apart (p.apart d);
  }

  -- What a successful step has claimed: CPUs that were free, and are not any more.
  pub record Claimed (v w : Preparing) (cpus : CPUSet) : Type 0 where
    pub shrinks : Shrinks v w
    pub was_free : (x : ℤ) → contains cpus x ≡ true → is_free v x ≡ true
    pub now_taken : (x : ℤ) → contains cpus x ≡ true → is_free w x ≡ false

  -- How `claim_cpus` ends: with the CPUs taken from the isolated or from the other free ones.
  pub claim_cpus-cases :
      (pool : String) (pcfg : Config) (cpus : CPUSet) (v : Preparing)
      → (claim_cpus pool pcfg cpus v).1 ≡ ok tt
      → ((is_subset_of cpus v.isolated ≡ true)
          × ((claim_cpus pool pcfg cpus v).0 ≡ record v { isolated = difference v.isolated cpus }))
        ⊎ ((is_subset_of cpus v.available ≡ true)
            × ((claim_cpus pool pcfg cpus v).0
                ≡ record v { available = difference v.available cpus }))
  unfolding claim_cpus
  claim_cpus-cases pool pcfg cpus v e = ground arith

  claim_cpus-Claimed :
      (pool : String) (pcfg : Config) (cpus : CPUSet) (v : Preparing)
      → Disjoint v.isolated v.available
      → (claim_cpus pool pcfg cpus v).1 ≡ ok tt
      → Claimed v (claim_cpus pool pcfg cpus v).0 cpus
  claim_cpus-Claimed pool pcfg cpus v apart e = elim (claim_cpus-cases pool pcfg cpus v e) [
    | inl (inside, after_it) ↦ rw after_it (record {
      shrinks = record {
        fewer = λ x h. ground (arith, contains-difference v.isolated cpus x);
        apart = λ d x. ground (arith, contains-difference v.isolated cpus x, d x);
      };
      was_free = λ x h. ground (arith, (is_subset_of_iff cpus v.isolated).0 inside x h);
      now_taken = λ x h. ground (
        arith,
        (is_subset_of_iff cpus v.isolated).0 inside x h,
        apart x,
        contains-difference v.isolated cpus x,
      );
    })
    | inr (inside, after_it) ↦ rw after_it (record {
      shrinks = record {
        fewer = λ x h. ground (arith, contains-difference v.available cpus x);
        apart = λ d x. ground (arith, contains-difference v.available cpus x, d x);
      };
      was_free = λ x h. ground (arith, (is_subset_of_iff cpus v.available).0 inside x h);
      now_taken = λ x h. ground (
        arith,
        (is_subset_of_iff cpus v.available).0 inside x h,
        apart x,
        contains-difference v.available cpus x,
      );
    })
  ]

  -- Taking hyperthreads offline frees no CPU, however it ends.
  pub claim_siblings-cases :
      (sys : System) (pool : String) (pcfg : Config) (cpus : CPUSet) (v : Preparing)
      → ((claim_siblings sys pool pcfg cpus v).0 ≡ v)
        ⊎ ((t u : CPUSet) × ((claim_siblings sys pool pcfg cpus v).0
              ≡ record v { available = difference v.available t; offlined = u }))
  unfolding claim_siblings
  claim_siblings-cases sys pool pcfg cpus v =
      elim (Option-cases (ht_siblings sys (to_slice cpus))) [
        | inl e ↦ inl (rw (e, claim_siblings) refl)
        | inr (ids, e) ↦
            let t = new_cpuset ids in
            let conflict = not (is_subset_of t v.available) && not (is_subset_of t v.offlined) in
            elim (Bool-cases pcfg.disable_ht) [
              | inr keep ↦ inl (ground (arith, e))
              | inl drop ↦ elim (Bool-cases conflict) [
                | inl bad ↦ inl (ground (arith, e))
                | inr fine ↦ inr (t, union v.offlined t, ground (arith, e))
              ]
            ]
      ]

  claim_siblings-Shrinks :
      (sys : System) (pool : String) (pcfg : Config) (cpus : CPUSet) (v : Preparing)
      → Shrinks v (claim_siblings sys pool pcfg cpus v).0
  claim_siblings-Shrinks sys pool pcfg cpus v = elim (claim_siblings-cases sys pool pcfg cpus v) [
    | inl same ↦ rw same (Shrinks-refl v v refl refl)
    | inr (t, u, changed) ↦ rw changed (record {
      fewer = λ x h. ground (arith, contains-difference v.available t x);
      apart = λ d x. ground (arith, contains-difference v.available t x, d x);
    })
  ]

  configure_pool-Shrinks :
      (pool : String) (pcfg : Config) (cpus : CPUSet) (v : Preparing)
      → Shrinks v (configure_pool pool pcfg cpus v)
  unfolding configure_pool
  configure_pool-Shrinks pool pcfg cpus v = elim (Option-cases (get pool v.pools)) [
    | inl e ↦
        Shrinks-refl v (configure_pool pool pcfg cpus v) (ground (arith, e)) (ground (arith, e))
    | inr (p, e) ↦
        Shrinks-refl v (configure_pool pool pcfg cpus v) (ground (arith, e)) (ground (arith, e))
  ]

  set_leftover_keeps :
      (isolated : Bool) (pool : String) (v : Preparing)
      → ((set_leftover isolated pool v).isolated ≡ v.isolated)
        × ((set_leftover isolated pool v).available ≡ v.available)
  unfolding set_leftover
  set_leftover_keeps true pool v = (refl, refl)
  set_leftover_keeps false pool v = (refl, refl)

  note_leftover_keeps :
      (pool : String) (pcfg : Config) (v : Preparing)
      → ((note_leftover pool pcfg v).0.isolated ≡ v.isolated)
        × ((note_leftover pool pcfg v).0.available ≡ v.available)
  unfolding note_leftover
  note_leftover_keeps pool pcfg v =
      let (e, f) = set_leftover_keeps pcfg.isolated pool v in
      let taken = leftover_of pcfg.isolated v == "" in
      elim (Bool-cases taken) [
        | inr no_more ↦ rw (no_more, note_leftover) (refl, refl)
        | inl first ↦ elim (Option-cases (get pool v.pools)) [
          | inl new ↦ rw (first, new, note_leftover) (e, f)
          | inr (p, old) ↦ rw (first, old, note_leftover) (e, f)
        ]
      ]

  -- A pool that does not claim what is left over, and its CPUs.
  abbrev pub Configured : NodeConfig → String → CPUSet → Type 0
  Configured ncfg name s =
      (pcfg : Config) × (get name ncfg ≡ some pcfg)
      × ((pcfg.cpu_count == claim_leftover) ≡ false)
      × (pcfg.cpus ≡ some s)

  -- What follows once the CPUs are claimed.
  abbrev pub once_claimed :
      System
      → String
      → Config
      → CPUSet
      → Preparing
      → Unit {0}
      → Preparing × Outcome Error (Unit {0})
  once_claimed sys pool pcfg s claimed done =
      after (claim_siblings sys pool pcfg s claimed)
        λ freed done. (configure_pool pool pcfg s freed, ok tt)

  once_claimed-Shrinks :
      (sys : System) (pool : String) (pcfg : Config) (s : CPUSet) (v : Preparing)
      → (once_claimed sys pool pcfg s v tt).1 ≡ ok tt
      → Shrinks v (once_claimed sys pool pcfg s v tt).0
  once_claimed-Shrinks sys pool pcfg s v good =
      let (done, fine, whole) = after-ok (claim_siblings sys pool pcfg s v) _ tt good in
      rw whole (
        Shrinks-trans v (claim_siblings sys pool pcfg s v).0 _
          (claim_siblings-Shrinks sys pool pcfg s v)
          (configure_pool-Shrinks pool pcfg s (claim_siblings sys pool pcfg s v).0))

  pub prepare_pool_configured :
      (sys : System) (pool : String) (pcfg : Config) (s : CPUSet) (v : Preparing)
      → (pcfg.cpu_count == claim_leftover) ≡ false
      → pcfg.cpus ≡ some s
      → prepare_pool sys pool pcfg v
        ≡ after (claim_cpus pool pcfg s v) (once_claimed sys pool pcfg s)
  unfolding prepare_pool
  prepare_pool_configured sys pool pcfg s v fixed e = ground (arith, e)

  pub Claimed-Shrinks :
      (v w u : Preparing) (s : CPUSet) → Claimed v w s → Shrinks w u → Claimed v u s
  Claimed-Shrinks v w u s p q = record {
    shrinks = Shrinks-trans v w u p.shrinks q;
    was_free = p.was_free;
    now_taken = λ x h. ground (arith, p.now_taken x h, q.fewer x);
  }

  -- A pool with CPUs of its own that is prepared has claimed them.
  pub prepare_pool-Claimed :
      (sys : System) (pool : String) (pcfg : Config) (s : CPUSet) (v : Preparing)
      → Disjoint v.isolated v.available
      → (pcfg.cpu_count == claim_leftover) ≡ false
      → pcfg.cpus ≡ some s
      → (prepare_pool sys pool pcfg v).1 ≡ ok tt
      → Claimed v (prepare_pool sys pool pcfg v).0 s
  prepare_pool-Claimed sys pool pcfg s v apart fixed e good =
      let whole = prepare_pool_configured sys pool pcfg s v fixed e in
      let w = (claim_cpus pool pcfg s v).0 in
      let fine : (after (claim_cpus pool pcfg s v) (once_claimed sys pool pcfg s)).1 ≡ ok tt =
        ap (λ (r : Preparing × Outcome Error (Unit {0})). r.1) (sym whole) ∙ good in
      let (done, first, rest) =
        after-ok (claim_cpus pool pcfg s v) (once_claimed sys pool pcfg s) tt fine in
      let later : (once_claimed sys pool pcfg s w tt).1 ≡ ok tt =
        ap (λ (r : Preparing × Outcome Error (Unit {0})). r.1) (sym rest) ∙ fine in
      rw (whole ∙ rest) (
        Claimed-Shrinks v w _ s (claim_cpus-Claimed pool pcfg s v apart first)
          (once_claimed-Shrinks sys pool pcfg s w later))

  -- A pool that claims what is left over takes nothing yet; without CPUs there is no pool.
  pub prepare_pool-Shrinks :
      (sys : System) (pool : String) (pcfg : Config) (v : Preparing)
      → Disjoint v.isolated v.available
      → (prepare_pool sys pool pcfg v).1 ≡ ok tt
      → Shrinks v (prepare_pool sys pool pcfg v).0
  unfolding prepare_pool
  prepare_pool-Shrinks sys pool pcfg v apart good =
      elim (Bool-cases (pcfg.cpu_count == claim_leftover)) [
        | inl leftover ↦
            let whole : prepare_pool sys pool pcfg v ≡ note_leftover pool pcfg v =
              rw (leftover, prepare_pool) refl in
            let (e, f) = note_leftover_keeps pool pcfg v in
            rw whole (Shrinks-refl v (note_leftover pool pcfg v).0 e f)
        | inr fixed ↦ elim (Option-cases pcfg.cpus) [
          | inl nothing ↦ absurd (ground (arith, nothing, fixed))
          | inr (s, e) ↦ (prepare_pool-Claimed sys pool pcfg s v apart fixed e good).shrinks
        ]
      ]
