-- ===== src/Pool/Pooled.antt =====
-- cmd/cpu-pool-policy/pool/pool.go: the first loop of `prepareConfig`, over the pools of a new
-- configuration: the CPUs that it hands out to the pools that name theirs, and the pools themselves.
use mathlib.Core.Path.{subst}
use cpu_policy_plugins_for_k.Prelude.{
  ◌≡◌, refl, Bool, true, false, none, some, Option, List, [], ◌∷◌, String, string_eq, ◌==◌, arith,
  elem, Bool-cases, Option-cases, inl, inr, sym, ap, ◌∙◌, ==-refl,
}
use cpu_policy_plugins_for_k.Prelude.GoMap.{get, get-put}
use cpu_policy_plugins_for_k.Prelude.Int.{int_eq, pos}
use cpu_policy_plugins_for_k.Prelude.Outcome.{Outcome, ok, after-ok}
use cpu_policy_plugins_for_k.Errors.{Error}
use cpu_policy_plugins_for_k.Cpuset.{Cpusets, Disjoint}
use cpu_policy_plugins_for_k.Sysfs.{System}
use cpu_policy_plugins_for_k.Config.{Config, NodeConfig, claim_leftover}
use cpu_policy_plugins_for_k.Pool.State.{Pool}
use cpu_policy_plugins_for_k.Pool.Prepare.{
  Preparing, empty_pool, leftover_of, note_leftover, claim_cpus, claim_siblings, configure_pool,
  prepare_pool, prepare_pools,
}
use cpu_policy_plugins_for_k.Pool.Claims.{Configured, once_claimed, prepare_pool_configured}
use cpu_policy_plugins_for_k.Pool.Preserve.{
  SameCpus, claim_cpus_pools, claim_siblings_pools, set_leftover_pools,
}
use cpu_policy_plugins_for_k.Pool.Apart.{
  AllClaimed, prepare_pools_skip, prepare_pools_step, prepare_pools-AllClaimed,
}

module _ ⦃c : Cpusets⦄ where
  open c use {CPUSet, new_cpuset}

  -- What the pool of a name is before and after the loop. It is there with its configuration. Where
  -- it is new, it shares the CPUs of the configuration; where it was there, it has the CPUs it had.
  abbrev pub Pooled : Option Config → CPUSet → Option Pool → Option Pool → Type 0
  Pooled cfg s before now =
      (p : Pool) × (now ≡ some p)
      × (p.cfg ≡ cfg)
      × (before ≡ none → p.shared ≡ s)
      × ((q : Pool) → before ≡ some q → SameCpus p q)

  Pooled-trans :
      (cfg : Option Config) (s : CPUSet) (a b d : Option Pool)
      → Pooled cfg s a b
      → Pooled cfg s b d
      → Pooled cfg s a d
  Pooled-trans cfg s a b d (p, at, known, new, old) (q, at', known', new', old') =
      let (x, y, z) = old' p at in
      (
        q,
        at',
        known',
        λ e. x ∙ new e,
        λ r e. let (x', y', z') = old r e in (x ∙ x', y ∙ y', z ∙ z'),
      )

  configured_other :
      (pool name : String) (pcfg : Config) (s : CPUSet) (v : Preparing)
      → (pool == name) ≡ false
      → get name (configure_pool pool pcfg s v).pools ≡ get name v.pools
  unfolding configure_pool
  configured_other pool name pcfg s v other = elim (Option-cases (get pool v.pools)) [
    | inl e ↦ rw (e, configure_pool) (get-put name pool _ v.pools ∙ rw other refl)
    | inr (p, e) ↦ rw (e, configure_pool) (get-put name pool _ v.pools ∙ rw other refl)
  ]

  configured_own :
      (pool : String) (pcfg : Config) (s : CPUSet) (v : Preparing)
      → Pooled (some pcfg) s (get pool v.pools) (get pool (configure_pool pool pcfg s v).pools)
  unfolding configure_pool
  configured_own pool pcfg s v = elim (Option-cases (get pool v.pools)) [
    | inl e ↦ (
      record { shared = s; pinned = new_cpuset []; used = pos 0; cfg = some pcfg },
      rw (e, configure_pool) (get-put pool pool _ v.pools ∙ rw (==-refl pool) refl),
      refl,
      λ new. refl,
      λ q old. absurd (cc (e, old)),
    )
    | inr (p, e) ↦ (
      record p { cfg = some pcfg },
      rw (e, configure_pool) (get-put pool pool _ v.pools ∙ rw (==-refl pool) refl),
      refl,
      λ new. absurd (cc (e, new)),
      λ q old.
          let is : p ≡ q = cc (e, old) in
          subst (SameCpus (record p { cfg = some pcfg })) is (refl, refl, refl),
    )
  ]

  noted_other :
      (pool name : String) (pcfg : Config) (v : Preparing)
      → (pool == name) ≡ false
      → get name (note_leftover pool pcfg v).0.pools ≡ get name v.pools
  unfolding note_leftover
  noted_other pool name pcfg v other =
      let same = set_leftover_pools pcfg.isolated pool v in
      elim (Bool-cases (leftover_of pcfg.isolated v == "")) [
        | inr no_more ↦ rw (no_more, note_leftover) refl
        | inl first ↦ elim (Option-cases (get pool v.pools)) [
          | inl new ↦
              rw (first, new, note_leftover) (get-put name pool empty_pool v.pools ∙ rw other refl)
          | inr (p, old) ↦ rw (first, old, note_leftover) (ap (get name) same)
        ]
      ]

  -- The body of the loop for a pool with CPUs of its own, where it ends well.
  module _ (sys : System) (pool : String) (pcfg : Config) (s : CPUSet) (v : Preparing)
      (fixed : (pcfg.cpu_count == claim_leftover) ≡ false) (cpus : pcfg.cpus ≡ some s)
      (good : (prepare_pool sys pool pcfg v).1 ≡ ok tt) where
    abbrev freed : Preparing
    freed = (claim_siblings sys pool pcfg s (claim_cpus pool pcfg s v).0).0

    prepare_pool_configures : (prepare_pool sys pool pcfg v).0 ≡ configure_pool pool pcfg s freed
    prepare_pool_configures =
        let whole = prepare_pool_configured sys pool pcfg s v fixed cpus in
        let w = (claim_cpus pool pcfg s v).0 in
        let fine = ap (λ (r : Preparing × Outcome Error (Unit {0})). r.1) (sym whole) ∙ good in
        let (done, first, rest) =
          after-ok (claim_cpus pool pcfg s v) (once_claimed sys pool pcfg s) tt fine in
        let later : (once_claimed sys pool pcfg s w tt).1 ≡ ok tt =
          ap (λ (r : Preparing × Outcome Error (Unit {0})). r.1) (sym rest) ∙ fine in
        let (done', second, last) = after-ok (claim_siblings sys pool pcfg s w) _ tt later in
        ap (λ (r : Preparing × Outcome Error (Unit {0})). r.0) (whole ∙ rest ∙ last)

    freed_pools : freed.pools ≡ v.pools
    freed_pools =
        claim_siblings_pools sys pool pcfg s (claim_cpus pool pcfg s v).0
        ∙ claim_cpus_pools pool pcfg s v

    prepare_pool-Pooled :
        Pooled (some pcfg) s (get pool v.pools) (get pool (prepare_pool sys pool pcfg v).0.pools)
    prepare_pool-Pooled =
        let now = get pool (configure_pool pool pcfg s freed).pools in
        rw prepare_pool_configures (
          subst (λ (o : Option Pool). Pooled (some pcfg) s o now) (ap (get pool) freed_pools)
            (configured_own pool pcfg s freed))

    prepare_pool_others :
        (name : String)
        → (pool == name) ≡ false
        → get name (prepare_pool sys pool pcfg v).0.pools ≡ get name v.pools
    prepare_pool_others name other =
        rw prepare_pool_configures
          (configured_other pool name pcfg s freed other ∙ ap (get name) freed_pools)

  prepare_pool_other :
      (sys : System) (pool : String) (pcfg : Config) (v : Preparing) (name : String)
      → (prepare_pool sys pool pcfg v).1 ≡ ok tt
      → (pool == name) ≡ false
      → get name (prepare_pool sys pool pcfg v).0.pools ≡ get name v.pools
  unfolding prepare_pool
  prepare_pool_other sys pool pcfg v name good other =
      elim (Bool-cases (pcfg.cpu_count == claim_leftover)) [
        | inl leftover ↦ rw (leftover, prepare_pool) (noted_other pool name pcfg v other)
        | inr fixed ↦ elim (Option-cases pcfg.cpus) [
          | inl nothing ↦ absurd (ground (arith, nothing, fixed))
          | inr (s, e) ↦ prepare_pool_others sys pool pcfg s v fixed e good name other
        ]
      ]

  -- A pool with CPUs of its own: untouched by names that are not its own, and else configured.
  abbrev Looped : Bool → Option Config → CPUSet → Option Pool → Option Pool → Type 0
  Looped visited cfg s before now =
      (visited ≡ false → now ≡ before) × (visited ≡ true → Pooled cfg s before now)

  Looped-own :
      (visited : Bool) (cfg : Option Config) (s : CPUSet) (a b d : Option Pool)
      → Pooled cfg s a b
      → Looped visited cfg s b d
      → Looped true cfg s a d
  Looped-own true cfg s a b d first (still, more) =
      (λ e. absurd (cc e), λ e. Pooled-trans cfg s a b d first (more refl))
  Looped-own false cfg s a b d first (still, more) =
      (λ e. absurd (cc e), λ e. subst (Pooled cfg s a) (sym (still refl)) first)

  Looped-other :
      (visited : Bool) (cfg : Option Config) (s : CPUSet) (a b d : Option Pool)
      → b ≡ a
      → Looped visited cfg s b d
      → Looped visited cfg s a d
  Looped-other visited cfg s a b d same more = subst (λ o. Looped visited cfg s o d) same more

  own-Pooled :
      (sys : System) (ncfg : NodeConfig) (pool name : String) (pcfg : Config) (s : CPUSet)
      (v : Preparing)
      → get pool ncfg ≡ some pcfg
      → (prepare_pool sys pool pcfg v).1 ≡ ok tt
      → pool ≡ name
      → Configured ncfg name s
      → Pooled
          (get name ncfg)
          s
          (get name v.pools)
          (get name (prepare_pool sys pool pcfg v).0.pools)
  own-Pooled sys ncfg pool name pcfg s v e good is (cfg, known, fixed, cpus) =
      let after_it = (prepare_pool sys pool pcfg v).0.pools in
      let alike : pcfg ≡ cfg = cc (e, known, is) in
      let p = prepare_pool-Pooled sys pool pcfg s v (rw alike fixed) (rw alike cpus) good in
      let q = subst (λ x. Pooled x s (get pool v.pools) (get pool after_it)) (sym e) p in
      subst (λ n. Pooled (get n ncfg) s (get n v.pools) (get n after_it)) is q

  -- The loop, for one pool with CPUs of its own.
  prepare_pools-Looped :
      (sys : System) (ncfg : NodeConfig) (names : List String) (v : Preparing)
      → (prepare_pools sys ncfg names v).1 ≡ ok tt
      → (name : String) (s : CPUSet) → Configured ncfg name s
      → Looped
          (elem name names)
          (get name ncfg)
          s
          (get name v.pools)
          (get name (prepare_pools sys ncfg names v).0.pools)
  unfolding prepare_pools
  prepare_pools-Looped sys ncfg [] v good name s own = (λ e. refl, λ e. absurd (cc e))
  prepare_pools-Looped sys ncfg (pool ∷ rest) v good name s own =
      elim (Option-cases (get pool ncfg)) [
        | inl e ↦
            let whole = prepare_pools_skip sys ncfg pool rest v e in
            let fine = ap (λ (r : Preparing × Outcome Error (Unit {0})). r.1) (sym whole) ∙ good in
            let more = prepare_pools-Looped sys ncfg rest v fine name s own in
            let other : (pool == name) ≡ false =
              ground (arith, e, own.1, string_eq.equal_iff pool name) in
            rw (whole, other) more
        | inr (pcfg, e) ↦
            let whole = prepare_pools_step sys ncfg pool rest v pcfg e in
            let step = prepare_pool sys pool pcfg v in
            let fine = ap (λ (r : Preparing × Outcome Error (Unit {0})). r.1) (sym whole) ∙ good in
            let (done, first, later) =
              after-ok step (λ w done. prepare_pools sys ncfg rest w) tt fine in
            let fine' = ap (λ (r : Preparing × Outcome Error (Unit {0})). r.1) (sym later) ∙ fine in
            let more = prepare_pools-Looped sys ncfg rest step.0 fine' name s own in
            elim (Bool-cases (pool == name)) [
              | inl same ↦
                  let is : pool ≡ name = ground (arith, string_eq.equal_iff pool name) in
                  rw (whole ∙ later, same)
                    (Looped-own (elem name rest) (get name ncfg) s _ _ _
                      (own-Pooled sys ncfg pool name pcfg s v e first is own) more)
              | inr other ↦
                  rw (whole ∙ later, other)
                    (Looped-other (elem name rest) (get name ncfg) s _ _ _
                      (prepare_pool_other sys pool pcfg v name first other) more)
            ]
      ]

  -- If the loop of `prepareConfig` over the pools ends well, then for the pools of it that name
  -- CPUs of their own, and do not claim what is left over: the CPUs of each were free before and are
  -- not free after; no two such pools name a common CPU; and each is a pool with its new
  -- configuration, which shares the CPUs that it names where the pool is new, and has the CPUs and
  -- the CPU used that it had before where the pool was there. This is so in every order of the
  -- pools. The isolated and the other free CPUs are apart at the start.
  pub prepare_pools-Pooled :
      (sys : System) (ncfg : NodeConfig) (names : List String) (v : Preparing)
      → Disjoint v.isolated v.available
      → (prepare_pools sys ncfg names v).1 ≡ ok tt
      → AllClaimed ncfg names v (prepare_pools sys ncfg names v).0
        × ((name : String) (s : CPUSet)
            → elem name names ≡ true
            → Configured ncfg name s
            → Pooled
                (get name ncfg)
                s
                (get name v.pools)
                (get name (prepare_pools sys ncfg names v).0.pools))
  prepare_pools-Pooled sys ncfg names v apart good = (
    prepare_pools-AllClaimed sys ncfg names v apart good,
    λ name s at own. (prepare_pools-Looped sys ncfg names v good name s own).1 at,
  )
