-- ===== src/Policy/Restore.antt =====
-- cmd/cpu-pool-policy/pool-policy-plugin.go: `restoreState`.
use cpu_policy_plugins_for_k.Prelude.{false, none, some, List, [], ◌∷◌, String}
use cpu_policy_plugins_for_k.Prelude.GoMap.{keys}
use cpu_policy_plugins_for_k.Prelude.Outcome.{Outcome, ok, err, panic, after}
use cpu_policy_plugins_for_k.Errors.{Error}
use cpu_policy_plugins_for_k.Cpuset.{Cpusets}
use cpu_policy_plugins_for_k.Runtime.{GoRuntime}
use cpu_policy_plugins_for_k.Kube.{Quantities}
use cpu_policy_plugins_for_k.Pool.State.{PoolSet, Host}
use cpu_policy_plugins_for_k.Pool.Release.{release_cpu}
use cpu_policy_plugins_for_k.Pool.Assignments.{get_pool_assignments}
use cpu_policy_plugins_for_k.Pool.Checkpoint.{Json, unmarshal_json}
use cpu_policy_plugins_for_k.Policy.Store.{Stub}
use cpu_policy_plugins_for_k.Policy.Update.{pool_state_key}

module _ ⦃c : Cpusets⦄ ⦃g : GoRuntime⦄ ⦃h : Host⦄ ⦃q : Quantities⦄ ⦃j : Json⦄ ⦃st : Stub⦄ where
  open g use {range_names}
  open st use {State, get_cpuset, get_policy_entry}

  -- The loop of `restoreState`: containers that the kubelet does not know are released.
  unfoldable pub release_lingering :
      List String → State → PoolSet → PoolSet × Outcome Error (Unit {0})
  release_lingering [] s ps = (ps, ok tt)
  release_lingering (id ∷ rest) s ps = elim (get_cpuset id s) [
    | some cset ↦ release_lingering rest s ps
    | none ↦ after (release_cpu id ps) λ released done. release_lingering rest s released
  ]

  -- The first part of `restoreState`.
  unfoldable pub load_checkpoint : State → PoolSet → PoolSet × Outcome Error (Unit {0})
  load_checkpoint s ps = elim (get_policy_entry pool_state_key s) [
    | none ↦ (ps, ok tt)
    | some doc ↦ unmarshal_json doc ps
  ]

  -- The second part of `restoreState`.
  unfoldable pub drop_lingering : State → PoolSet → PoolSet × Outcome Error (Unit {0})
  drop_lingering s ps = elim (get_pool_assignments false ps) [
    | err f ↦ (ps, err f)
    | panic ↦ (ps, panic)
    | ok assignments ↦ release_lingering (range_names "restoreState" (keys assignments)) s ps
  ]

  -- `restoreState(s)`
  unfoldable pub restore_state : State → PoolSet → PoolSet × Outcome Error (Unit {0})
  restore_state s ps = after (load_checkpoint s ps) λ loaded done. drop_lingering s loaded
