-- ===== src/Pool/Preserve.antt =====
-- cmd/cpu-pool-policy/pool/pool.go: preparing and restoring a configuration takes nothing from
-- a pool that is in use.
use cpu_policy_plugins_for_k.Prelude.{
  ◌≡◌, refl, Bool, true, false, Option, none, some, List, [], ◌∷◌, String, string_eq, ◌==◌, arith,
  Bool-cases, Option-cases, inl, inr, sym, ap, ◌∙◌,
}
use cpu_policy_plugins_for_k.Prelude.GoMap.{get, put, delete, GoMap, get-put, get-delete}
use cpu_policy_plugins_for_k.Prelude.Int.{int_eq}
use cpu_policy_plugins_for_k.Prelude.Outcome.{ok, panic, after, after-either, Outcome-cases}
use cpu_policy_plugins_for_k.Cpuset.{Cpusets}
use cpu_policy_plugins_for_k.Sysfs.{System}
use cpu_policy_plugins_for_k.Config.{Config, NodeConfig, claim_leftover}
use cpu_policy_plugins_for_k.Pool.State.{Pool}
use cpu_policy_plugins_for_k.Pool.Prepare.{
  Preparing, empty_pool, leftover_of, note_leftover, set_leftover, claim_cpus, claim_siblings,
  configure_pool, prepare_pool, prepare_pools, leftover_cpus, claim_leftovers,
}
use cpu_policy_plugins_for_k.Pool.Claims.{
  claim_siblings-cases, once_claimed, prepare_pool_configured,
}
use cpu_policy_plugins_for_k.Pool.Restore.{restore_pools, drop_new_pools}

module _ ⦃c : Cpusets⦄ where
  open c use {CPUSet}

  -- The pools of the second map have the same CPUs, and the same CPU used, as those of the first;
  -- their configurations may differ, and there may be more of them.
  abbrev pub SameCpus : Pool → Pool → Type 0
  SameCpus p q = (p.shared ≡ q.shared) × (p.pinned ≡ q.pinned) × (p.used ≡ q.used)

  abbrev pub Preserved : GoMap String Pool → GoMap String Pool → Type 0
  Preserved pools pools' =
      (name : String) (p : Pool)
      → get name pools ≡ some p
      → (q : Pool) × (get name pools' ≡ some q) × SameCpus q p

  pub Preserved-refl : (pools : GoMap String Pool) → Preserved pools pools
  Preserved-refl pools name p e = (p, e, (refl, refl, refl))

  pub Preserved-trans : (a b d : GoMap String Pool) → Preserved a b → Preserved b d → Preserved a d
  Preserved-trans a b d f g name p e =
      let (q, at, (s, t, u)) = f name p e in
      let (r, at', (s', t', u')) = g name q at in (r, at', (s' ∙ s, t' ∙ t, u' ∙ u))

  -- A pool changes its configuration.
  Preserved-cfg :
      (name : String) (p : Pool) (cfg : Option Config) (pools : GoMap String Pool)
      → get name pools ≡ some p
      → Preserved pools (put name (record p { cfg = cfg }) pools)
  Preserved-cfg name p cfg pools known other q at = elim (Bool-cases (name == other)) [
    | inl same ↦
        let q_is : p ≡ q = ground (arith, known, at, string_eq.equal_iff name other) in
        (
          record p { cfg = cfg },
          get-put other name _ pools ∙ rw same refl,
          rw (sym q_is) (refl, refl, refl),
        )
    | inr differ ↦ (q, get-put other name _ pools ∙ rw differ at, (refl, refl, refl))
  ]

  -- A pool is new.
  Preserved-new :
      (name : String) (p : Pool) (pools : GoMap String Pool)
      → get name pools ≡ none
      → Preserved pools (put name p pools)
  Preserved-new name p pools new other q at = (
    q,
    get-put other name p pools ∙ ground (arith, new, at, string_eq.equal_iff name other),
    (refl, refl, refl),
  )

  -- The steps that do not touch the pools.
  pub claim_cpus_pools :
      (pool : String) (pcfg : Config) (cpus : CPUSet) (v : Preparing)
      → (claim_cpus pool pcfg cpus v).0.pools ≡ v.pools
  unfolding claim_cpus
  claim_cpus_pools pool pcfg cpus v = ground arith

  pub claim_siblings_pools :
      (sys : System) (pool : String) (pcfg : Config) (cpus : CPUSet) (v : Preparing)
      → (claim_siblings sys pool pcfg cpus v).0.pools ≡ v.pools
  claim_siblings_pools sys pool pcfg cpus v = elim (claim_siblings-cases sys pool pcfg cpus v) [
    | inl same ↦ ap (λ (w : Preparing). w.pools) same
    | inr (t, u, changed) ↦ ap (λ (w : Preparing). w.pools) changed
  ]

  configure_pool-Preserved :
      (pool : String) (pcfg : Config) (cpus : CPUSet) (v : Preparing)
      → Preserved v.pools (configure_pool pool pcfg cpus v).pools
  unfolding configure_pool
  configure_pool-Preserved pool pcfg cpus v = elim (Option-cases (get pool v.pools)) [
    | inl e ↦ rw (e, configure_pool) (Preserved-new pool _ v.pools e)
    | inr (p, e) ↦ rw (e, configure_pool) (Preserved-cfg pool p (some pcfg) v.pools e)
  ]

  pub set_leftover_pools :
      (isolated : Bool) (pool : String) (v : Preparing)
      → (set_leftover isolated pool v).pools ≡ v.pools
  unfolding set_leftover
  set_leftover_pools true pool v = refl
  set_leftover_pools false pool v = refl

  note_leftover-Preserved :
      (pool : String) (pcfg : Config) (v : Preparing)
      → Preserved v.pools (note_leftover pool pcfg v).0.pools
  unfolding note_leftover
  note_leftover-Preserved pool pcfg v =
      let same = set_leftover_pools pcfg.isolated pool v in
      elim (Bool-cases (leftover_of pcfg.isolated v == "")) [
        | inr no_more ↦ rw (no_more, note_leftover) (Preserved-refl v.pools)
        | inl first ↦ elim (Option-cases (get pool v.pools)) [
          | inl new ↦ rw (first, new, note_leftover) (Preserved-new pool empty_pool v.pools new)
          | inr (p, old) ↦ rw (first, old, note_leftover) (rw same (Preserved-refl v.pools))
        ]
      ]

  own_cpus :
      (sys : System) (pool : String) (pcfg : Config) (s : CPUSet) (v : Preparing)
      → Preserved v.pools (after (claim_cpus pool pcfg s v) (once_claimed sys pool pcfg s)).0.pools
  own_cpus sys pool pcfg s v =
      let claimed = claim_cpus pool pcfg s v in
      let freed = claim_siblings sys pool pcfg s claimed.0 in
      let of_pools = λ (w : Preparing). w.pools in
      let unchanged = claim_cpus_pools pool pcfg s v in
      let still = claim_siblings_pools sys pool pcfg s claimed.0 ∙ unchanged in
      elim (after-either claimed (once_claimed sys pool pcfg s)) [
        | inl e ↦ rw (ap of_pools e ∙ unchanged) (Preserved-refl v.pools)
        | inr (done, e) ↦
            elim (after-either freed (λ w done. (configure_pool pool pcfg s w, ok tt))) [
              | inl f ↦ rw (ap of_pools (e ∙ f) ∙ still) (Preserved-refl v.pools)
              | inr (done, f) ↦ rw (e ∙ f) (
                  Preserved-trans v.pools freed.0.pools _ (rw still (Preserved-refl v.pools))
                    (configure_pool-Preserved pool pcfg s freed.0))
            ]
      ]

  prepare_pool-Preserved :
      (sys : System) (pool : String) (pcfg : Config) (v : Preparing)
      → Preserved v.pools (prepare_pool sys pool pcfg v).0.pools
  unfolding prepare_pool
  prepare_pool-Preserved sys pool pcfg v = elim (Bool-cases (pcfg.cpu_count == claim_leftover)) [
    | inl leftover ↦ rw (leftover, prepare_pool) (note_leftover-Preserved pool pcfg v)
    | inr fixed ↦ elim (Option-cases pcfg.cpus) [
      | inl nothing ↦
          let e : prepare_pool sys pool pcfg v ≡ (v, panic) = ground (arith, fixed, nothing) in
          rw e (Preserved-refl v.pools)
      | inr (s, given) ↦
          rw (prepare_pool_configured sys pool pcfg s v fixed given) (own_cpus sys pool pcfg s v)
    ]
  ]

  pub prepare_pools-Preserved :
      (sys : System) (ncfg : NodeConfig) (names : List String) (v : Preparing)
      → Preserved v.pools (prepare_pools sys ncfg names v).0.pools
  unfolding prepare_pools
  prepare_pools-Preserved sys ncfg [] v = Preserved-refl v.pools
  prepare_pools-Preserved sys ncfg (pool ∷ rest) v = elim (Option-cases (get pool ncfg)) [
    | inl e ↦ rw (e, prepare_pools) (prepare_pools-Preserved sys ncfg rest v)
    | inr (pcfg, e) ↦
        let step = prepare_pool sys pool pcfg v in
        let first = prepare_pool-Preserved sys pool pcfg v in
        rw (e, prepare_pools)
          (elim (after-either step (λ w done. prepare_pools sys ncfg rest w)) [
            | inl f ↦ rw f first
            | inr (done, f) ↦ rw f (
                Preserved-trans v.pools step.0.pools _ first
                  (prepare_pools-Preserved sys ncfg rest step.0))
          ])
  ]

  pub claim_leftovers-Preserved :
      (v : Preparing) (names : List String) (pools : GoMap String Pool) (ncfg : NodeConfig)
      → Preserved pools (claim_leftovers v names (pools, ncfg)).0.0
  unfolding claim_leftovers
  claim_leftovers-Preserved v [] pools ncfg = Preserved-refl pools
  claim_leftovers-Preserved v (pool ∷ rest) pools ncfg = elim (Bool-cases (pool == "")) [
    | inl unclaimed ↦ rw (unclaimed, claim_leftovers) (claim_leftovers-Preserved v rest pools ncfg)
    | inr claims ↦ elim (Option-cases (get pool ncfg)) [
      | inl none_there ↦ rw (claims, none_there, claim_leftovers) (Preserved-refl pools)
      | inr (pcfg, e) ↦ elim (Outcome-cases (leftover_cpus pool pcfg v)) [
        | inr (inl (m, f)) ↦ rw (claims, e, claim_leftovers) (rw f (Preserved-refl pools))
        | inr (inr f) ↦ rw (claims, e, claim_leftovers) (rw f (Preserved-refl pools))
        | inl (cpus, f) ↦
            let pcfg' = record pcfg { cpus = some cpus } in
            elim (Option-cases (get pool pools)) [
              | inl k ↦ rw (claims, e, claim_leftovers) (rw (f, k) (Preserved-refl pools))
              | inr (p, k) ↦
                  rw (claims, e, claim_leftovers)
                    (rw (f, k)
                      (Preserved-trans pools (put pool (record p { cfg = some pcfg' }) pools) _
                        (Preserved-cfg pool p (some pcfg') pools k)
                        (claim_leftovers-Preserved v rest
                          (put pool (record p { cfg = some pcfg' }) pools) (put pool pcfg' ncfg))))
            ]
      ]
    ]
  ]

  pub restore_pools-Preserved :
      (current : NodeConfig) (names : List String) (pools : GoMap String Pool)
      → Preserved pools (restore_pools current names pools).0
  unfolding restore_pools
  restore_pools-Preserved current [] pools = Preserved-refl pools
  restore_pools-Preserved current (pool ∷ rest) pools = elim (Option-cases (get pool current)) [
    | inl e ↦ rw (e, restore_pools) (restore_pools-Preserved current rest pools)
    | inr (pc, e) ↦ elim (Option-cases (get pool pools)) [
      | inl f ↦ rw (e, f, restore_pools) (Preserved-refl pools)
      | inr (p, f) ↦
          rw (e, f, restore_pools)
            (Preserved-trans pools (put pool (record p { cfg = some pc }) pools) _
              (Preserved-cfg pool p (some pc) pools f)
              (restore_pools-Preserved current rest (put pool (record p { cfg = some pc }) pools)))
    ]
  ]

  -- A pool of the current configuration is not dropped.
  pub get-drop_new_pools :
      (current : NodeConfig) (names : List String) (pools : GoMap String Pool) (name : String)
      (pc : Config)
      → get name current ≡ some pc
      → get name (drop_new_pools current names pools) ≡ get name pools
  unfolding drop_new_pools
  get-drop_new_pools current [] pools name pc e = refl
  get-drop_new_pools current (pool ∷ rest) pools name pc e =
      elim (Option-cases (get pool current)) [
        | inr (other, f) ↦ rw (f, drop_new_pools) (get-drop_new_pools current rest pools name pc e)
        | inl f ↦
            rw (f, drop_new_pools)
              (get-drop_new_pools current rest (delete pool pools) name pc e
                ∙ get-delete name pool pools
                ∙ ground (arith, e, f, string_eq.equal_iff pool name))
      ]
