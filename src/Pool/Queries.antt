-- ===== src/Pool/Queries.antt =====
-- cmd/cpu-pool-policy/pool/pool.go: creating a pool set, checking it, and asking it for CPUs. The
-- queries return fresh maps: these are folds over the pools or the containers.
use cpu_policy_plugins_for_k.Prelude.{
  ◌+◌, ◌*◌, Bool, true, false, ◌||◌, Option, none, some, [], ◌∷◌, String, string_eq, ◌==◌,
  if◌then◌else◌,
}
use cpu_policy_plugins_for_k.Prelude.GoMap.{GoMap, get, put}
use cpu_policy_plugins_for_k.Prelude.Int.{ℤ, pos, wrap64}
use cpu_policy_plugins_for_k.Prelude.Outcome.{Outcome, ok, err, panic}
use cpu_policy_plugins_for_k.Errors.{Error, missing_pool}
use cpu_policy_plugins_for_k.Cpuset.{Cpusets}
use cpu_policy_plugins_for_k.Runtime.{GoRuntime}
use cpu_policy_plugins_for_k.Sysfs.{System}
use cpu_policy_plugins_for_k.Metrics.{Metrics}
use cpu_policy_plugins_for_k.Config.{NodeConfig, reserved_pool, default_pool}
use cpu_policy_plugins_for_k.Pool.State.{Container, Pool, PoolSet, Host}
use cpu_policy_plugins_for_k.Pool.Reconcile.{reconfigure}

module _ ⦃c : Cpusets⦄ where
  open c use {CPUSet, new_cpuset, size, is_empty, union}

  -- `Verify`
  unfoldable pub verify : PoolSet → Outcome Error (Unit {0})
  verify ps = elim (get reserved_pool ps.pools) [
    | none ↦ err (missing_pool reserved_pool)
    | some r ↦ elim (get default_pool ps.pools) [
      | none ↦ err (missing_pool default_pool)
      | some d ↦ ok tt
    ]
  ]

  -- `GetPoolCapacity`, by the pool's name where the source puts a prefix before it.
  unfoldable pub pool_capacities : GoMap String Pool → GoMap String ℤ
  pool_capacities [] = []
  pool_capacities ((name, p) ∷ rest) =
      put name (wrap64 (pos (1000 * (size p.shared + size p.pinned)))) (pool_capacities rest)

  -- `GetPoolCPUs`
  unfoldable pub pool_cpus : GoMap String Pool → GoMap String CPUSet
  pool_cpus [] = []
  pool_cpus ((name, p) ∷ rest) = put name p.shared (pool_cpus rest)

  -- The shared CPUs of the default and the reserved pool, which count as one; a pool that is not
  -- there is a nil dereference.
  unfoldable pub common_cpus : GoMap String Pool → Option CPUSet
  common_cpus pools = elim (get default_pool pools) [
    | none ↦ none
    | some d ↦ elim (get reserved_pool pools) [
      | none ↦ none
      | some r ↦ some (union d.shared r.shared)
    ]
  ]

  -- `GetPoolCPUSet(pool)`: the CPUs and whether the pool is there.
  unfoldable pub get_pool_cpuset : String → PoolSet → Outcome Error (CPUSet × Bool)
  get_pool_cpuset pool ps = elim (get pool ps.pools) [
    | none ↦ ok (new_cpuset [], false)
    | some p ↦
        if pool == default_pool || pool == reserved_pool
        then elim (common_cpus ps.pools) [ none ↦ panic | some cpus ↦ ok (cpus, true) ]
        else ok (p.shared, true)
  ]

  -- `GetContainerCPUSet(id)`: the CPUs a container may run on, and whether it is known.
  unfoldable pub get_container_cpuset : String → PoolSet → Outcome Error (CPUSet × Bool)
  get_container_cpuset id ps = elim (get id ps.containers) [
    | none ↦ ok (new_cpuset [], false)
    | some box ↦
        if is_empty box.cpus
        then (if box.pool == reserved_pool || box.pool == default_pool
            then elim (common_cpus ps.pools) [ none ↦ panic | some cpus ↦ ok (cpus, true) ]
            else elim (get box.pool ps.pools) [ none ↦ panic | some p ↦ ok (p.shared, true) ])
        else ok (box.cpus, true)
  ]

  -- `GetCPUAssignments`: the containers with CPUs of their own.
  unfoldable pub get_cpu_assignments : GoMap String Container → GoMap String CPUSet
  get_cpu_assignments [] = []
  get_cpu_assignments ((key, box) ∷ rest) =
      let others = get_cpu_assignments rest in
      if is_empty box.cpus then others else put box.id box.cpus others

  module _ ⦃g : GoRuntime⦄ ⦃h : Host⦄ where
    -- `NewPoolSet(ncfg, metrics)`; what the discovery of the machine finds is an argument.
    unfoldable pub new_pool_set :
        Outcome Error System → CPUSet → Option NodeConfig → Metrics → Outcome Error PoolSet
    new_pool_set found no_cpus ncfg metrics = elim found [
      | err e ↦ err e
      | panic ↦ panic
      | ok sys ↦
          let (ps, out) = reconfigure ncfg (record {
            pools = [];
            containers = [];
            sys = sys;
            offlined = no_cpus;
            metrics = metrics;
            current_cfg = none;
            pending_cfg = none;
          }) in
          elim out [ ok done ↦ ok ps | err e ↦ err e | panic ↦ panic ]
    ]
