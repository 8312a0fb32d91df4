-- ===== src/Pool/Refused.antt =====
-- cmd/cpu-pool-policy/pool/pool.go: a configuration that is refused takes nothing from a pool that
-- is in use.
use cpu_policy_plugins_for_k.Prelude.{◌≡◌, refl, some, String, string_eq, arith, inl, inr, ◌∙◌}
use cpu_policy_plugins_for_k.Prelude.GoMap.{get, keys, GoMap}
use cpu_policy_plugins_for_k.Prelude.Int.{int_eq}
use cpu_policy_plugins_for_k.Prelude.Outcome.{Outcome, ok, err, panic, Outcome-cases}
use cpu_policy_plugins_for_k.Errors.{Error}
use cpu_policy_plugins_for_k.Cpuset.{Cpusets}
use cpu_policy_plugins_for_k.Runtime.{GoRuntime}
use cpu_policy_plugins_for_k.Config.{Config, NodeConfig}
use cpu_policy_plugins_for_k.Pool.State.{Pool, PoolSet, Host}
use cpu_policy_plugins_for_k.Pool.Prepare.{
  Preparing, finish_claims, finish_pools, start_preparing, prepare_config,
}
use cpu_policy_plugins_for_k.Pool.Reserve.{prepare_reserved_pool}
use cpu_policy_plugins_for_k.Pool.Restore.{restore_pools, configs, restore_config}
use cpu_policy_plugins_for_k.Pool.Reconcile.{reconcile_config}
use cpu_policy_plugins_for_k.Pool.Preserve.{
  SameCpus, Preserved, Preserved-refl, Preserved-trans, prepare_pools-Preserved,
  claim_leftovers-Preserved, restore_pools-Preserved, get-drop_new_pools,
}

module _ ⦃c : Cpusets⦄ where
  open c use {CPUSet}

  -- The pools in use are preserved; the containers, the current configuration and the machine are
  -- the same.
  pub record Kept (ps qs : PoolSet) : Type 0 where
    pub pools : Preserved ps.pools qs.pools
    pub containers : qs.containers ≡ ps.containers
    pub current : qs.current_cfg ≡ ps.current_cfg
    pub machine : qs.sys ≡ ps.sys

  Kept-refl : (ps : PoolSet) → Kept ps ps
  Kept-refl ps = record {
    pools = Preserved-refl ps.pools;
    containers = refl;
    current = refl;
    machine = refl;
  }

  module _ ⦃g : GoRuntime⦄ ⦃h : Host⦄ where
    open g use {range_names}

    finish_claims-Kept :
        (ps : PoolSet) (offlined : CPUSet)
        (claims : (GoMap String Pool × NodeConfig) × Outcome Error (Unit {0}))
        → Preserved ps.pools claims.0.0
        → Kept ps (finish_claims ps offlined claims).0.0
    unfolding finish_claims
    finish_claims-Kept ps offlined ((pools, cfg), err e) k = record {
      pools = k;
      containers = refl;
      current = refl;
      machine = refl;
    }
    finish_claims-Kept ps offlined ((pools, cfg), panic) k = record {
      pools = k;
      containers = refl;
      current = refl;
      machine = refl;
    }
    finish_claims-Kept ps offlined ((pools, cfg), ok done) k = record {
      pools = k;
      containers = refl;
      current = refl;
      machine = refl;
    }

    finish_pools-Kept :
        (ps : PoolSet) (cfg : NodeConfig) (loop : Preparing × Outcome Error (Unit {0}))
        → Preserved ps.pools loop.0.pools
        → Kept ps (finish_pools ps cfg loop).0.0
    unfolding finish_pools
    finish_pools-Kept ps cfg (v, err e) k = record {
      pools = k;
      containers = refl;
      current = refl;
      machine = refl;
    }
    finish_pools-Kept ps cfg (v, panic) k = record {
      pools = k;
      containers = refl;
      current = refl;
      machine = refl;
    }
    finish_pools-Kept ps cfg (v, ok done) k =
        finish_claims-Kept ps v.offlined _
          (Preserved-trans ps.pools v.pools _ k (claim_leftovers-Preserved v _ v.pools cfg))

    prepare_config-Kept : (ncfg : NodeConfig) (ps : PoolSet) → Kept ps (prepare_config ncfg ps).0.0
    unfolding prepare_config
    prepare_config-Kept ncfg ps = elim (Outcome-cases (prepare_reserved_pool ps.sys ncfg)) [
      | inr (inl (m, e)) ↦ rw (e, prepare_config) (Kept-refl ps)
      | inr (inr e) ↦ rw (e, prepare_config) (Kept-refl ps)
      | inl (cfg, e) ↦
          rw (e, prepare_config)
            (finish_pools-Kept ps cfg _ (
              prepare_pools-Preserved ps.sys cfg (range_names "prepareConfig" (keys cfg))
                (start_preparing ps)))
    ]

    -- What `restoreConfig` leaves of a pool of the current configuration.
    restore_config_pool :
        (ps : PoolSet) (name : String) (pc : Config) (p : Pool)
        → get name (configs ps.current_cfg) ≡ some pc
        → get name ps.pools ≡ some p
        → (q : Pool) × (get name (restore_config ps).0.pools ≡ some q) × SameCpus q p
    unfolding restore_config
    restore_config_pool ps name pc p configured at =
        let current = configs ps.current_cfg in
        let restored =
          restore_pools current (range_names "restoreConfig" (keys current)) ps.pools in
        let (q, now, same) =
          restore_pools-Preserved current (range_names "restoreConfig" (keys current)) ps.pools name
            p at in
        elim (Outcome-cases restored.1) [
          | inr (inl (m, e)) ↦ (q, rw (e, restore_config) now, same)
          | inr (inr e) ↦ (q, rw (e, restore_config) now, same)
          | inl (done, e) ↦ (
            q,
            rw (e, restore_config)
                (get-drop_new_pools current _ restored.0 name pc configured ∙ now),
            same,
          )
        ]

    restore_config_containers : (ps : PoolSet) → (restore_config ps).0.containers ≡ ps.containers
    unfolding restore_config
    restore_config_containers ps =
        let current = configs ps.current_cfg in
        let restored =
          restore_pools current (range_names "restoreConfig" (keys current)) ps.pools in
        elim (Outcome-cases restored.1) [
          | inr (inl (m, e)) ↦ rw (e, restore_config) refl
          | inr (inr e) ↦ rw (e, restore_config) refl
          | inl (done, e) ↦ rw (e, restore_config) refl
        ]

    -- The state that a refused configuration is undone in.
    abbrev prepared : NodeConfig → PoolSet → PoolSet
    prepared ncfg ps = record (prepare_config ncfg ps).0.0 {
      pending_cfg = some (prepare_config ncfg ps).0.1;
    }

    reconcile_config_error :
        (ncfg : NodeConfig) (m : Error) (ps : PoolSet)
        → ps.pending_cfg ≡ some ncfg
        → (prepare_config ncfg ps).1 ≡ err m
        → reconcile_config ps ≡ ((restore_config (prepared ncfg ps)).0, err m)
    unfolding reconcile_config
    reconcile_config_error ncfg m ps pending refused = ground (arith, pending, refused)

    -- If a pending configuration cannot be prepared, then its error is reported, the containers
    -- keep their CPUs, and every pool of the current configuration keeps its shared and its
    -- exclusive CPUs and the CPU counted as used.
    pub reconcile_config_keeps :
        (ncfg : NodeConfig) (m : Error) (ps : PoolSet)
        → ps.pending_cfg ≡ some ncfg
        → (prepare_config ncfg ps).1 ≡ err m
        → ((reconcile_config ps).1 ≡ err m)
          × ((reconcile_config ps).0.containers ≡ ps.containers)
          × ((name : String) (pc : Config) (p : Pool)
              → get name (configs ps.current_cfg) ≡ some pc
              → get name ps.pools ≡ some p
              → (q : Pool) × (get name (reconcile_config ps).0.pools ≡ some q) × SameCpus q p)
    reconcile_config_keeps ncfg m ps pending refused =
        let kept = prepare_config-Kept ncfg ps in
        rw (reconcile_config_error ncfg m ps pending refused) (
          refl,
          restore_config_containers (prepared ncfg ps) ∙ kept.containers,
          λ name pc p configured at.
              let (q, now, (s, t, u)) = kept.pools name p at in
              let (r, later, (s', t', u')) =
                restore_config_pool (prepared ncfg ps) name pc q (rw kept.current configured) now in
              (r, later, (s' ∙ s, t' ∙ t, u' ∙ u)),
        )
