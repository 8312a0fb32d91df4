-- ===== src/Pool/Restore.antt =====
-- cmd/cpu-pool-policy/pool/pool.go: `restoreConfig`, after a configuration that cannot be used.
use cpu_policy_plugins_for_k.Prelude.{Option, none, some, List, [], ◌∷◌, String, string_eq}
use cpu_policy_plugins_for_k.Prelude.GoMap.{GoMap, get, put, delete, keys}
use cpu_policy_plugins_for_k.Prelude.Int.{int_eq}
use cpu_policy_plugins_for_k.Prelude.Outcome.{Outcome, ok, err, panic}
use cpu_policy_plugins_for_k.Errors.{Error, cannot_restore}
use cpu_policy_plugins_for_k.Cpuset.{Cpusets}
use cpu_policy_plugins_for_k.Runtime.{GoRuntime}
use cpu_policy_plugins_for_k.Config.{NodeConfig}
use cpu_policy_plugins_for_k.Pool.State.{Pool, PoolSet}

module _ ⦃c : Cpusets⦄ where
  open c use {
    CPUSet, new_cpuset, contains, size, is_empty, is_subset_of, union, difference, to_slice,
  }

  -- The first loop of `restoreConfig`, over the current configuration.
  unfoldable pub restore_pools :
      NodeConfig → List String → GoMap String Pool → GoMap String Pool × Outcome Error (Unit {0})
  restore_pools current [] pools = (pools, ok tt)
  restore_pools current (pool ∷ rest) pools = elim (get pool current) [
    | none ↦ restore_pools current rest pools
    | some pc ↦ elim (get pool pools) [
      | none ↦ (pools, err (cannot_restore pool))
      | some p ↦ restore_pools current rest (put pool (record p { cfg = some pc }) pools)
    ]
  ]

  -- The second loop, over the pools.
  unfoldable pub drop_new_pools : NodeConfig → List String → GoMap String Pool → GoMap String Pool
  drop_new_pools current [] pools = pools
  drop_new_pools current (pool ∷ rest) pools = elim (get pool current) [
    | none ↦ drop_new_pools current rest (delete pool pools)
    | some pc ↦ drop_new_pools current rest pools
  ]

  -- A nil configuration reads as an empty one.
  abbrev pub configs : Option NodeConfig → NodeConfig
  configs none = []
  configs (some cfg) = cfg

  module _ ⦃g : GoRuntime⦄ where
    open g use {range_names}

    -- `restoreConfig`
    unfoldable pub restore_config : PoolSet → PoolSet × Outcome Error (Unit {0})
    restore_config ps =
        let current = configs ps.current_cfg in
        let (pools, out) =
          restore_pools current (range_names "restoreConfig" (keys current)) ps.pools in
        elim out [
          | ok done ↦ (
            record ps {
              pools = drop_new_pools current (range_names "restoreConfig added" (keys pools)) pools;
            },
            ok tt,
          )
          | err e ↦ (record ps { pools = pools }, err e)
          | panic ↦ (record ps { pools = pools }, panic)
        ]
