-- ===== src/Policy/Plugin.antt =====
-- cmd/cpu-pool-policy/pool-policy-plugin.go: serving containers. The plugin's mutex makes each
-- request one step. Of the policy's fields `topology` is left out, which nothing reads.
use cpu_policy_plugins_for_k.Prelude.{
  ◌/◌, ◌%◌, ◌+◌, Bool, not, ◌&&◌, Option, some, String, ◌==◌, nat_beq, if◌then◌else◌,
}
use cpu_policy_plugins_for_k.Prelude.Int.{ℤ, pos, negsuc, int_eq, sub_ℕ}
use cpu_policy_plugins_for_k.Prelude.Outcome.{Outcome, ok, err, panic}
use cpu_policy_plugins_for_k.Errors.{Error}
use cpu_policy_plugins_for_k.Cpuset.{Cpusets}
use cpu_policy_plugins_for_k.Runtime.{GoRuntime}
use cpu_policy_plugins_for_k.Kube.{Quantities, KubeContainer, KubePod}
use cpu_policy_plugins_for_k.Config.{NodeConfig}
use cpu_policy_plugins_for_k.Pool.State.{PoolSet, Host}
use cpu_policy_plugins_for_k.Pool.Allocation.{allocate_cpu, allocate_exclusive}
use cpu_policy_plugins_for_k.Pool.Release.{release_cpu}
use cpu_policy_plugins_for_k.Pool.Queries.{get_container_cpuset}
use cpu_policy_plugins_for_k.Pool.Resources.{get_container_pool_resources}
use cpu_policy_plugins_for_k.Pool.Checkpoint.{Json}
use cpu_policy_plugins_for_k.Policy.Store.{Stub}
use cpu_policy_plugins_for_k.Policy.Update.{update_state}

-- `req % 1000 == 0`
abbrev pub is_whole : ℤ → Bool
is_whole (pos n) = nat_beq (n % 1000) 0
is_whole (negsuc n) = nat_beq ((n + 1) % 1000) 0

-- `req / 1000`, which Go rounds towards zero.
abbrev pub whole_cpus : ℤ → ℤ
whole_cpus (pos n) = pos (n / 1000)
whole_cpus (negsuc n) = sub_ℕ 0 ((n + 1) / 1000)

-- A container that asks for whole CPUs only, and for no more than it needs, has them to itself.
unfoldable pub wants_exclusive : ℤ → ℤ → Bool
wants_exclusive req lim = not (req == pos 0) && (req == lim && is_whole req)

module _ ⦃c : Cpusets⦄ where
  open c use {CPUSet}

  pub record Plugin : Type 0 where
    pub num_reserved_cpus : ℤ
    -- Whether `cfgPicker` is set.
    pub watching : Bool
    pub pool_cfg : Option NodeConfig
    pub pools : Option PoolSet

  -- `NewPolicy(topology, numReservedCPUs)`
  unfoldable pub new_policy : ℤ → Plugin → Plugin
  new_policy n p = record p { num_reserved_cpus = n }

  module _ ⦃g : GoRuntime⦄ ⦃h : Host⦄ where
    -- The call that `AddContainer` makes for a new container.
    unfoldable pub request_cpus : String → String → ℤ → ℤ → PoolSet → PoolSet × Outcome Error CPUSet
    request_cpus id pool req lim ps =
        if wants_exclusive req lim
        then allocate_exclusive id pool (whole_cpus req) ps
        else allocate_cpu id pool req ps

    module _ ⦃q : Quantities⦄ ⦃j : Json⦄ ⦃st : Stub⦄ where
      open st use {State, forget}

      -- An update of the state whose error the caller drops.
      unfoldable pub update_ignored : PoolSet → State → (PoolSet × State) × Outcome Error (Unit {0})
      update_ignored ps s =
          let (s', out) = update_state (some ps) s in
          elim out [
            | ok done ↦ ((ps, s'), ok tt)
            | err e ↦ ((ps, s'), ok tt)
            | panic ↦ ((ps, s'), panic)
          ]

      -- What follows a request.
      unfoldable pub finish_request :
          State → PoolSet × Outcome Error CPUSet → (PoolSet × State) × Outcome Error (Unit {0})
      finish_request s (ps, ok cset) = update_ignored ps s
      finish_request s (ps, err e) = ((ps, s), err e)
      finish_request s (ps, panic) = ((ps, s), panic)

      -- `AddContainer(s, pod, container, containerID)`
      unfoldable pub add_container :
          KubePod
          → KubeContainer
          → String
          → PoolSet
          → State
          → (PoolSet × State) × Outcome Error (Unit {0})
      add_container pod container id ps s =
          let (pool, req, lim) = get_container_pool_resources pod container in
          elim (get_container_cpuset id ps) [
            | err e ↦ ((ps, s), err e)
            | panic ↦ ((ps, s), panic)
            | ok (cset, known) ↦
                if known
                then ((ps, s), ok tt)
                else finish_request s (request_cpus id pool req lim ps)
          ]

      -- What follows the release of a container.
      unfoldable pub finish_release :
          String
          → State
          → PoolSet × Outcome Error (Unit {0})
          → (PoolSet × State) × Outcome Error (Unit {0})
      finish_release id s (ps, ok done) = update_ignored ps (forget id s)
      finish_release id s (ps, err e) = update_ignored ps (forget id s)
      finish_release id s (ps, panic) = ((ps, s), panic)

      -- `RemoveContainer(s, containerID)`
      unfoldable pub remove_container :
          String → PoolSet → State → (PoolSet × State) × Outcome Error (Unit {0})
      remove_container id ps s = finish_release id s (release_cpu id ps)
