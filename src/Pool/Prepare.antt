-- ===== src/Pool/Prepare.antt =====
-- cmd/cpu-pool-policy/pool/pool.go: checking a new configuration against the machine, and handing
-- out its CPUs to the pools. A pointer to a `Config` is a value here; the configuration that is
-- prepared is returned, since `prepareConfig` fills in CPUs through its pointers.
use cpu_policy_plugins_for_k.Prelude.{
  Bool, true, false, not, ◌&&◌, ◌||◌, none, some, List, [], ◌∷◌, String, string_eq, ◌==◌,
  if◌then◌else◌,
}
use cpu_policy_plugins_for_k.Prelude.GoMap.{GoMap, get, put, keys}
use cpu_policy_plugins_for_k.Prelude.Int.{pos, int_eq}
use cpu_policy_plugins_for_k.Prelude.Outcome.{Outcome, ok, err, panic, after}
use cpu_policy_plugins_for_k.Errors.{
  Error, leftover_claimed_twice, cpus_not_isolated, cpus_not_available, cannot_put_offline,
  no_leftover_isolated, no_leftover, pool_busy,
}
use cpu_policy_plugins_for_k.Cpuset.{Cpusets}
use cpu_policy_plugins_for_k.Runtime.{GoRuntime}
use cpu_policy_plugins_for_k.Sysfs.{System, system_cpuset}
use cpu_policy_plugins_for_k.Config.{Config, NodeConfig, claim_leftover}
use cpu_policy_plugins_for_k.Pool.State.{Pool, PoolSet, Host}
use cpu_policy_plugins_for_k.Pool.Reserve.{ht_siblings, prepare_reserved_pool}

module _ ⦃c : Cpusets⦄ where
  open c use {
    CPUSet, new_cpuset, contains, size, is_empty, is_subset_of, union, difference, to_slice,
  }

  -- The variables of `prepareConfig`; `leftover` is its map from isolation to a pool, where a
  -- missing entry reads as the empty name.
  pub record Preparing : Type 0 where
    pub pools : GoMap String Pool
    pub isolated : CPUSet
    pub available : CPUSet
    pub offlined : CPUSet
    pub leftover_isolated : String
    pub leftover_shared : String

  unfoldable pub leftover_of : Bool → Preparing → String
  leftover_of true v = v.leftover_isolated
  leftover_of false v = v.leftover_shared

  unfoldable pub set_leftover : Bool → String → Preparing → Preparing
  set_leftover true pool v = record v { leftover_isolated = pool }
  set_leftover false pool v = record v { leftover_shared = pool }

  abbrev pub empty_pool : Pool
  empty_pool = record { shared = new_cpuset []; pinned = new_cpuset []; used = pos 0; cfg = none }

  -- A pool that claims what is left over.
  unfoldable pub note_leftover : String → Config → Preparing → Preparing × Outcome Error (Unit {0})
  note_leftover pool pcfg v =
      let noted = set_leftover pcfg.isolated pool v in
      let result : Preparing = elim (get pool v.pools) [
        | some p ↦ noted
        | none ↦ record noted { pools = put pool empty_pool v.pools }
      ] in
      if leftover_of pcfg.isolated v == ""
      then (result, ok tt)
      else (v, err (leftover_claimed_twice pool (leftover_of pcfg.isolated v)))

  -- The CPUs of a pool are taken out of those that are free to take.
  unfoldable pub claim_cpus :
      String → Config → CPUSet → Preparing → Preparing × Outcome Error (Unit {0})
  claim_cpus pool pcfg cpus v =
      if pcfg.isolated
      then (if is_subset_of cpus v.isolated
          then (record v { isolated = difference v.isolated cpus }, ok tt)
          else (v, err (cpus_not_isolated pool)))
      else (if is_subset_of cpus v.available
          then (record v { available = difference v.available cpus }, ok tt)
          else (v, err (cpus_not_available pool)))

  -- The hyperthreads of an HT-free pool are to be taken offline.
  unfoldable pub claim_siblings :
      System → String → Config → CPUSet → Preparing → Preparing × Outcome Error (Unit {0})
  claim_siblings sys pool pcfg cpus v = elim (ht_siblings sys (to_slice cpus)) [
    | none ↦ (v, if pcfg.disable_ht then panic else ok tt)
    | some ids ↦
        let siblings = new_cpuset ids in
        if pcfg.disable_ht
        then (if not (is_subset_of siblings v.available) && not (is_subset_of siblings v.offlined)
            then (v, err (cannot_put_offline pool))
            else (
              record v {
                available = difference v.available siblings;
                offlined = union v.offlined siblings;
              },
              ok tt,
            ))
        else (v, ok tt)
  ]

  -- The pool gets its configuration, and is created where it is new.
  unfoldable pub configure_pool : String → Config → CPUSet → Preparing → Preparing
  configure_pool pool pcfg cpus v = elim (get pool v.pools) [
    | some p ↦ record v { pools = put pool (record p { cfg = some pcfg }) v.pools }
    | none ↦ record v {
      pools =
          put pool (record { shared = cpus; pinned = new_cpuset []; used = pos 0; cfg = some pcfg })
            v.pools;
    }
  ]

  -- The body of the loop over the configuration. A pool with no CPUs is a nil dereference.
  unfoldable pub prepare_pool :
      System → String → Config → Preparing → Preparing × Outcome Error (Unit {0})
  prepare_pool sys pool pcfg v =
      if pcfg.cpu_count == claim_leftover then note_leftover pool pcfg v else elim pcfg.cpus [
        | none ↦ (v, panic)
        | some cpus ↦ after (claim_cpus pool pcfg cpus v) λ claimed done.
            after (claim_siblings sys pool pcfg cpus claimed)
              λ freed done. (configure_pool pool pcfg cpus freed, ok tt)
      ]

  unfoldable pub prepare_pools :
      System → NodeConfig → List String → Preparing → Preparing × Outcome Error (Unit {0})
  prepare_pools sys ncfg [] v = (v, ok tt)
  prepare_pools sys ncfg (pool ∷ rest) v = elim (get pool ncfg) [
    | none ↦ prepare_pools sys ncfg rest v
    | some pcfg ↦ after (prepare_pool sys pool pcfg v) λ w done. prepare_pools sys ncfg rest w
  ]

  -- The leftover CPUs that a pool gets: isolated or not, or the error that there are none.
  unfoldable pub leftover_cpus : String → Config → Preparing → Outcome Error CPUSet
  leftover_cpus pool pcfg v =
      if pcfg.isolated
      then (if is_empty v.isolated then err (no_leftover_isolated pool) else ok v.isolated)
      else (if is_empty v.available then err (no_leftover pool) else ok v.available)

  -- The loop over the pools that claim leftover CPUs, on the pools and the configuration.
  unfoldable pub claim_leftovers :
      Preparing
      → List String
      → GoMap String Pool × NodeConfig
      → (GoMap String Pool × NodeConfig) × Outcome Error (Unit {0})
  claim_leftovers v [] s = (s, ok tt)
  claim_leftovers v (pool ∷ rest) (pools, ncfg) =
      if pool == "" then claim_leftovers v rest (pools, ncfg) else elim (get pool ncfg) [
        | none ↦ ((pools, ncfg), panic)
        | some pcfg ↦ elim (leftover_cpus pool pcfg v) [
          | err e ↦ ((pools, ncfg), err e)
          | panic ↦ ((pools, ncfg), panic)
          | ok cpus ↦
              let pcfg' = record pcfg { cpus = some cpus } in
              elim (get pool pools) [
                | none ↦ ((pools, put pool pcfg' ncfg), panic)
                | some p ↦
                    claim_leftovers v rest
                      (put pool (record p { cfg = some pcfg' }) pools, put pool pcfg' ncfg)
              ]
        ]
      ]

  -- The last loop: a pool that is not configured any more must be idle.
  unfoldable pub check_removed :
      NodeConfig → GoMap String Pool → List String → Outcome Error (Unit {0})
  check_removed ncfg pools [] = ok tt
  check_removed ncfg pools (pool ∷ rest) =
      let later = check_removed ncfg pools rest in
      elim (get pool ncfg) [
        | some pcfg ↦ later
        | none ↦ elim (get pool pools) [
          | none ↦ later
          | some p ↦
              if not (p.used == pos 0) || not (is_empty p.pinned)
              then err (pool_busy pool)
              else later
        ]
      ]

  module _ ⦃g : GoRuntime⦄ ⦃h : Host⦄ where
    open g use {range_names}

    abbrev pub start_preparing : PoolSet → Preparing
    start_preparing ps = record {
      pools = ps.pools;
      isolated = h.isolated_cpus;
      available = difference (system_cpuset ps.sys) h.isolated_cpus;
      offlined = new_cpuset [];
      leftover_isolated = "";
      leftover_shared = "";
    }

    -- Once the leftover CPUs are claimed, pools that are gone from the configuration are checked.
    unfoldable pub finish_claims :
        PoolSet
        → CPUSet
        → (GoMap String Pool × NodeConfig) × Outcome Error (Unit {0})
        → (PoolSet × NodeConfig) × Outcome Error (Unit {0})
    finish_claims ps offlined ((pools, cfg), err e) =
        ((record ps { pools = pools; offlined = offlined }, cfg), err e)
    finish_claims ps offlined ((pools, cfg), panic) =
        ((record ps { pools = pools; offlined = offlined }, cfg), panic)
    finish_claims ps offlined ((pools, cfg), ok done) = (
      (record ps { pools = pools; offlined = offlined }, cfg),
      check_removed cfg pools (range_names "prepareConfig removed" (keys pools)),
    )

    -- Once the loop over the pools is over, the leftover CPUs are claimed.
    unfoldable pub finish_pools :
        PoolSet
        → NodeConfig
        → Preparing × Outcome Error (Unit {0})
        → (PoolSet × NodeConfig) × Outcome Error (Unit {0})
    finish_pools ps cfg (v, err e) = ((record ps { pools = v.pools }, cfg), err e)
    finish_pools ps cfg (v, panic) = ((record ps { pools = v.pools }, cfg), panic)
    finish_pools ps cfg (v, ok done) = finish_claims ps v.offlined (
        claim_leftovers v
          (range_names "prepareConfig leftover" (v.leftover_isolated ∷ v.leftover_shared ∷ []))
          (v.pools, cfg))

    -- `prepareConfig(ncfg)`: the pool set and the configuration as the call leaves them.
    unfoldable pub prepare_config :
        NodeConfig → PoolSet → (PoolSet × NodeConfig) × Outcome Error (Unit {0})
    prepare_config ncfg ps = elim (prepare_reserved_pool ps.sys ncfg) [
      | err e ↦ ((ps, ncfg), err e)
      | panic ↦ ((ps, ncfg), panic)
      | ok cfg ↦
          finish_pools ps cfg
            (prepare_pools ps.sys cfg (range_names "prepareConfig" (keys cfg)) (start_preparing ps))
    ]
