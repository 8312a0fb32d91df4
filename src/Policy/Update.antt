-- ===== src/Policy/Update.antt =====
-- cmd/cpu-pool-policy/pool-policy-plugin.go: `updateState`, which tells the kubelet about the pools.
use Prim.Native.String.{◌++◌ as append}
use cpu_policy_plugins_for_k.Prelude.{Option, none, some, false, List, [], ◌∷◌, String, string_eq}
use cpu_policy_plugins_for_k.Prelude.GoMap.{GoMap, get, keys}
use cpu_policy_plugins_for_k.Prelude.Int.{ℤ}
use cpu_policy_plugins_for_k.Prelude.Outcome.{Outcome, ok, err, panic}
use cpu_policy_plugins_for_k.Errors.{Error}
use cpu_policy_plugins_for_k.Cpuset.{Cpusets}
use cpu_policy_plugins_for_k.Runtime.{GoRuntime}
use cpu_policy_plugins_for_k.Kube.{Quantities}
use cpu_policy_plugins_for_k.Config.{resource_prefix, default_pool}
use cpu_policy_plugins_for_k.Pool.State.{PoolSet, Host}
use cpu_policy_plugins_for_k.Pool.Queries.{pool_capacities, get_pool_cpuset}
use cpu_policy_plugins_for_k.Pool.Assignments.{get_pool_assignments}
use cpu_policy_plugins_for_k.Pool.Checkpoint.{Json, marshal_json}
use cpu_policy_plugins_for_k.Policy.Store.{Stub}

-- The key of the pools in the policy's part of the state.
abbrev pub pool_state_key : String
pool_state_key = "pools"

module _ ⦃c : Cpusets⦄ ⦃q : Quantities⦄ ⦃j : Json⦄ ⦃st : Stub⦄ where
  open c use {CPUSet}
  open q use {new_quantity}
  open st use {State, set_cpuset, set_default_cpuset, set_policy_entry, update_resource}

  -- The loop over the CPUs of the containers.
  unfoldable pub set_cpusets : List String → GoMap String CPUSet → State → State
  set_cpusets [] m s = s
  set_cpusets (id ∷ rest) m s = elim (get id m) [
    | none ↦ set_cpusets rest m s
    | some cset ↦ set_cpusets rest m (set_cpuset id cset s)
  ]

  -- The loop over the capacities of the pools.
  unfoldable pub update_resources : List String → GoMap String ℤ → State → State
  update_resources [] m s = s
  update_resources (pool ∷ rest) m s = elim (get pool m) [
    | none ↦ update_resources rest m s
    | some qty ↦
        update_resources rest m (update_resource (append resource_prefix pool) (new_quantity qty) s)
  ]

  module _ ⦃g : GoRuntime⦄ ⦃h : Host⦄ where
    open g use {range_names}

    -- The state of the stub once the checkpoint is stored.
    unfoldable pub tell : PoolSet → GoMap String CPUSet → CPUSet → State → State
    tell ps assignments default_cpus s =
        let told = set_cpusets (range_names "updateState" (keys assignments)) assignments s in
        let capacities = pool_capacities ps.pools in
        set_default_cpuset default_cpus
          (update_resources (range_names "updateState resources" (keys capacities)) capacities told)

    -- `updateState(s)` with pools that are there.
    unfoldable pub update_pools_state : PoolSet → State → State × Outcome Error (Unit {0})
    update_pools_state ps s = elim (marshal_json ps) [
      | err e ↦ (s, err e)
      | panic ↦ (s, panic)
      | ok doc ↦
          let kept = set_policy_entry pool_state_key doc s in
          elim (get_pool_assignments false ps) [
            | err e ↦ (kept, err e)
            | panic ↦ (kept, panic)
            | ok assignments ↦ elim (get_pool_cpuset default_pool ps) [
              | err e ↦ (kept, err e)
              | panic ↦ (kept, panic)
              | ok (cpus, known) ↦ (tell ps assignments cpus kept, ok tt)
            ]
          ]
    ]

    -- `updateState(s)`; nothing is done while there are no pools.
    unfoldable pub update_state : Option PoolSet → State → State × Outcome Error (Unit {0})
    update_state none s = (s, ok tt)
    update_state (some ps) s = update_pools_state ps s
