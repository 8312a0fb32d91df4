-- ===== src/Pool/Figures.antt =====
-- cmd/cpu-pool-policy/pool/pool.go: the figures of a pool, and their way to the metrics.
use cpu_policy_plugins_for_k.Prelude.{
  ℕ, ◌+◌, ◌*◌, Bool, not, Option, none, some, List, [], ◌∷◌, String, string_eq, ◌==◌, if◌then◌else◌,
}
use cpu_policy_plugins_for_k.Prelude.GoMap.{get, keys}
use cpu_policy_plugins_for_k.Prelude.Int.{ℤ, pos, wrap64, add64}
use cpu_policy_plugins_for_k.Prelude.Outcome.{Outcome, ok, err, panic}
use cpu_policy_plugins_for_k.Errors.{Error}
use cpu_policy_plugins_for_k.Cpuset.{Cpusets}
use cpu_policy_plugins_for_k.Runtime.{GoRuntime}
use cpu_policy_plugins_for_k.Metrics.{update_pool, delete_all_pools, publish}
use cpu_policy_plugins_for_k.Config.{reserved_pool}
use cpu_policy_plugins_for_k.Pool.State.{PoolSet}

module _ ⦃c : Cpusets⦄ where
  open c use {CPUSet, new_cpuset, size}

  -- `getPoolCPUSets`: the capacity, the shared and the exclusive CPUs.
  unfoldable pub get_pool_cpusets : String → PoolSet → ℤ × CPUSet × CPUSet
  get_pool_cpusets pool ps =
      let (s, e) : CPUSet × CPUSet = elim (get pool ps.pools) [
        | none ↦ (new_cpuset [], new_cpuset [])
        | some p ↦ (p.shared, p.pinned)
      ] in
      (wrap64 (pos (1000 * (size s + size e))), s, e)

  -- `getPoolUsage`; a pool that is not there is a nil dereference.
  unfoldable pub get_pool_usage : String → PoolSet → Option ℤ
  get_pool_usage pool ps = elim (get pool ps.pools) [
    | none ↦ none
    | some p ↦ some (add64 (wrap64 (pos (1000 * size p.pinned))) p.used)
  ]

  -- `getPoolSize`
  unfoldable pub get_pool_size : String → PoolSet → Option ℕ
  get_pool_size pool ps = elim (get pool ps.pools) [
    | none ↦ none
    | some p ↦ some (size p.shared + size p.pinned)
  ]

  -- `getPoolCapacity`
  unfoldable pub get_pool_capacity : String → PoolSet → Option ℤ
  get_pool_capacity pool ps = elim (get pool ps.pools) [
    | none ↦ none
    | some p ↦ some (wrap64 (pos (1000 * (size p.shared + size p.pinned))))
  ]

  -- `getPoolMetrics`: name, shared and exclusive CPUs, capacity, usage. The reserved pool is not
  -- measured: its name comes back empty.
  unfoldable pub get_pool_metrics : String → PoolSet → String × CPUSet × CPUSet × ℤ × ℤ
  get_pool_metrics pool ps = elim (get pool ps.pools) [
    | none ↦ ("", new_cpuset [], new_cpuset [], pos 0, pos 0)
    | some p ↦
        if not (pool == reserved_pool)
        then (
          pool,
          p.shared,
          p.pinned,
          (get_pool_cpusets pool ps).0,
          add64 (wrap64 (pos (1000 * size p.pinned))) p.used,
        )
        else ("", new_cpuset [], new_cpuset [], pos 0, pos 0)
  ]

  -- The first half of `updatePoolMetrics`; `UpdatePool` does not fail.
  unfoldable pub cache_pool_metrics : String → PoolSet → PoolSet
  cache_pool_metrics pool ps =
      let (name, s, e, cap, u) = get_pool_metrics pool ps in
      if name == "" then ps else record ps { metrics = update_pool name s e cap u ps.metrics }

  module _ ⦃g : GoRuntime⦄ where
    open g use {range_names}

    -- `Publish` with its error dropped.
    unfoldable pub publish_metrics : PoolSet → PoolSet × Outcome Error (Unit {0})
    publish_metrics ps =
        let (m, out) = publish ps.metrics in
        let result : Outcome Error (Unit {0}) = elim out [
          | ok done ↦ ok tt
          | err e ↦ ok tt
          | panic ↦ panic
        ] in
        (record ps { metrics = m }, result)

    -- `updatePoolMetrics(pool, publish)`
    unfoldable pub update_pool_metrics :
        String → Bool → PoolSet → PoolSet × Outcome Error (Unit {0})
    update_pool_metrics pool publish_now ps =
        let cached = cache_pool_metrics pool ps in
        if publish_now then publish_metrics cached else (cached, ok tt)

    unfoldable pub cache_all : List String → PoolSet → PoolSet
    cache_all [] ps = ps
    cache_all (pool ∷ rest) ps = cache_all rest (cache_pool_metrics pool ps)

    -- `updateMetrics`
    unfoldable pub update_metrics : PoolSet → PoolSet × Outcome Error (Unit {0})
    update_metrics ps = publish_metrics (
        cache_all (range_names "updateMetrics" (keys ps.pools))
          (record ps { metrics = delete_all_pools ps.metrics }))
