-- ===== src/Pool/Assignments.antt =====
-- cmd/cpu-pool-policy/pool/pool.go: `GetPoolAssignments`, the CPUs of every container.
use cpu_policy_plugins_for_k.Prelude.{Bool, [], ◌∷◌, String, string_eq, if◌then◌else◌}
use cpu_policy_plugins_for_k.Prelude.GoMap.{GoMap, put}
use cpu_policy_plugins_for_k.Prelude.Outcome.{Outcome, ok, err, panic}
use cpu_policy_plugins_for_k.Errors.{Error}
use cpu_policy_plugins_for_k.Cpuset.{Cpusets}
use cpu_policy_plugins_for_k.Pool.State.{Container, PoolSet}
use cpu_policy_plugins_for_k.Pool.Queries.{get_pool_cpuset}

module _ ⦃c : Cpusets⦄ where
  open c use {CPUSet, is_empty}

  -- The CPUs of one container: its own, or those of its pool unless only exclusive CPUs count.
  unfoldable pub assigned : Bool → PoolSet → Container → Outcome Error CPUSet
  assigned exclusive ps box =
      let of_pool : Outcome Error CPUSet = elim (get_pool_cpuset box.pool ps) [
        | ok (cpus, known) ↦ ok cpus
        | err e ↦ err e
        | panic ↦ panic
      ] in
      if exclusive then ok box.cpus else if is_empty box.cpus then of_pool else ok box.cpus

  -- The loop of `GetPoolAssignments`, which returns a fresh map.
  unfoldable pub assign :
      Bool → PoolSet → GoMap String Container → Outcome Error (GoMap String CPUSet)
  assign exclusive ps [] = ok []
  assign exclusive ps ((id, box) ∷ rest) = elim (assigned exclusive ps box) [
    | err e ↦ err e
    | panic ↦ panic
    | ok cpus ↦ elim (assign exclusive ps rest) [
      | err e ↦ err e
      | panic ↦ panic
      | ok others ↦ ok (put id cpus others)
    ]
  ]

  -- `GetPoolAssignments(exclusive)`
  unfoldable pub get_pool_assignments : Bool → PoolSet → Outcome Error (GoMap String CPUSet)
  get_pool_assignments exclusive ps = assign exclusive ps ps.containers
