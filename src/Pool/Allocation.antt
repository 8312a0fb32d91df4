-- ===== src/Pool/Allocation.antt =====
-- cmd/cpu-pool-policy/pool/pool.go: giving a container CPU, shared or exclusive.
use cpu_policy_plugins_for_k.Prelude.{true, none, some, [], String, string_eq, ◌==◌, if◌then◌else◌}
use cpu_policy_plugins_for_k.Prelude.GoMap.{get, put}
use cpu_policy_plugins_for_k.Prelude.Int.{ℤ, pos, add64}
use cpu_policy_plugins_for_k.Prelude.Outcome.{Outcome, ok, err, panic, after}
use cpu_policy_plugins_for_k.Errors.{Error, pool_not_found, pool_does_not_exist}
use cpu_policy_plugins_for_k.Cpuset.{Cpusets}
use cpu_policy_plugins_for_k.Runtime.{GoRuntime}
use cpu_policy_plugins_for_k.Allocator.{allocate_cpus}
use cpu_policy_plugins_for_k.Config.{reserved_pool, default_pool}
use cpu_policy_plugins_for_k.Pool.State.{Pool, PoolSet, Host, milli_cpus, is_allowed_pool}
use cpu_policy_plugins_for_k.Pool.Figures.{update_pool_metrics}

module _ ⦃c : Cpusets⦄ ⦃g : GoRuntime⦄ where
  open c use {CPUSet, new_cpuset, size, union}

  -- A request that ends at once with a value.
  abbrev pub answer : PoolSet → CPUSet → PoolSet × Outcome Error CPUSet
  answer ps cset = (ps, ok cset)

  -- The pool and the containers after a shared allocation.
  unfoldable pub share_cpu : String → String → ℤ → Pool → PoolSet → PoolSet
  share_cpu id pool req p ps = record ps {
    containers =
        put id (record { id = id; pool = pool; cpus = new_cpuset []; req = req }) ps.containers;
    pools = put pool (record p { used = add64 p.used req }) ps.pools;
  }

  -- `AllocateCPU(id, pool, req)`. A pool that is not allowed is no error: the answer is empty.
  unfoldable pub allocate_cpu : String → String → ℤ → PoolSet → PoolSet × Outcome Error CPUSet
  allocate_cpu id pool req ps = elim (is_allowed_pool pool) [
    | err e ↦ (ps, ok (new_cpuset []))
    | panic ↦ (ps, panic)
    | ok allowed ↦ elim (get pool ps.pools) [
      | none ↦ (ps, err (pool_not_found pool))
      | some p ↦
          after (update_pool_metrics pool true (share_cpu id pool req p ps))
            (λ measured done. answer measured p.shared)
    ]
  ]

  -- `takeCPUs(&p.shared, &p.pinned, cnt)` on a pool.
  unfoldable pub take_cpus : ⦃h : Host⦄ → ℤ → Pool → Pool × Outcome Error CPUSet
  take_cpus ⦃h⦄ cnt p =
      let (rest, out) = allocate_cpus h.allocator_system p.shared cnt in
      elim out [
        | ok cset ↦ (record p { shared = rest; pinned = union p.pinned cset }, ok cset)
        | err e ↦ (record p { shared = rest }, err e)
        | panic ↦ (record p { shared = rest }, panic)
      ]

  -- The containers after an exclusive allocation.
  unfoldable pub pin_container : String → String → CPUSet → PoolSet → PoolSet
  pin_container id pool cpus ps = record ps {
    containers =
        put id (record { id = id; pool = pool; cpus = cpus; req = milli_cpus (pos (size cpus)) })
          ps.containers;
  }

  -- What `AllocateCPUs` does with the pool and the CPUs that `takeCPUs` comes back with.
  unfoldable pub grant_cpus :
      String → String → PoolSet → Pool × Outcome Error CPUSet → PoolSet × Outcome Error CPUSet
  grant_cpus id pool ps (p, err e) = (record ps { pools = put pool p ps.pools }, err e)
  grant_cpus id pool ps (p, panic) = (record ps { pools = put pool p ps.pools }, panic)
  grant_cpus id pool ps (p, ok cpus) =
      after
        (update_pool_metrics pool true
          (pin_container id pool cpus (record ps { pools = put pool p ps.pools })))
        (λ measured done. answer measured cpus)

  -- `AllocateCPUs(id, pool, numCPUs)`. The reserved pool is always shared; no name means the
  -- default pool.
  unfoldable pub allocate_exclusive :
      ⦃h : Host⦄ → String → String → ℤ → PoolSet → PoolSet × Outcome Error CPUSet
  allocate_exclusive ⦃h⦄ id pool n ps =
      let name = if pool == "" then default_pool else pool in
      if pool == reserved_pool
      then allocate_cpu id pool (milli_cpus n) ps
      else elim (is_allowed_pool name) [
        | err e ↦ (ps, err e)
        | panic ↦ (ps, panic)
        | ok allowed ↦ elim (get name ps.pools) [
          | none ↦ (ps, err (pool_does_not_exist name))
          | some p ↦ grant_cpus id name ps (take_cpus n p)
        ]
      ]
