-- ===== src/Pool/Release.antt =====
-- cmd/cpu-pool-policy/pool/pool.go: taking a container's CPU back.
use cpu_policy_plugins_for_k.Prelude.{true, none, some, String, string_eq, if◌then◌else◌}
use cpu_policy_plugins_for_k.Prelude.GoMap.{get, put, delete}
use cpu_policy_plugins_for_k.Prelude.Int.{sub64}
use cpu_policy_plugins_for_k.Prelude.Outcome.{Outcome, ok}
use cpu_policy_plugins_for_k.Errors.{Error}
use cpu_policy_plugins_for_k.Cpuset.{Cpusets}
use cpu_policy_plugins_for_k.Runtime.{GoRuntime}
use cpu_policy_plugins_for_k.Pool.State.{Container, Pool, PoolSet, Host}
use cpu_policy_plugins_for_k.Pool.Figures.{update_pool_metrics}
use cpu_policy_plugins_for_k.Pool.Reconcile.{reconcile_config, ignoring_error}

module _ ⦃c : Cpusets⦄ where
  open c use {CPUSet, is_empty, union, difference}

  -- The pool of a container that goes: a shared request is given back, or exclusive CPUs.
  unfoldable pub give_back : Container → Pool → Pool
  give_back box p =
      if is_empty box.cpus
      then record p { used = sub64 p.used box.req }
      else record p { shared = union p.shared box.cpus; pinned = difference p.pinned box.cpus }

  -- The containers and the pools after a release, before the metrics and the configuration.
  unfoldable pub forget_container : String → Container → PoolSet → PoolSet
  forget_container id box ps =
      let gone = record ps { containers = delete id ps.containers } in
      elim (get box.pool ps.pools) [
        | none ↦ gone
        | some p ↦ record gone { pools = put box.pool (give_back box p) ps.pools }
      ]

  module _ ⦃g : GoRuntime⦄ ⦃h : Host⦄ where
    -- `ReleaseCPU(id)`. The error of `reconcileConfig` is dropped.
    unfoldable pub release_cpu : String → PoolSet → PoolSet × Outcome Error (Unit {0})
    release_cpu id ps = elim (get id ps.containers) [
      | none ↦ (ps, ok tt)
      | some box ↦
          let gone = forget_container id box ps in
          elim (get box.pool ps.pools) [
            | none ↦ (gone, ok tt)
            | some p ↦
                ignoring_error (update_pool_metrics box.pool true gone)
                  λ measured. ignoring_error (reconcile_config measured) λ settled. (settled, ok tt)
          ]
    ]
