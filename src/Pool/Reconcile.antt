-- ===== src/Pool/Reconcile.antt =====
-- cmd/cpu-pool-policy/pool/pool.go: taking a pending configuration in use.
use cpu_policy_plugins_for_k.Prelude.{
  true, false, ◌&&◌, Option, none, some, List, [], ◌∷◌, String, string_eq, if◌then◌else◌, nat_beq,
}
use cpu_policy_plugins_for_k.Prelude.GoMap.{GoMap, get, put, delete, keys}
use cpu_policy_plugins_for_k.Prelude.Int.{ℤ, pos}
use cpu_policy_plugins_for_k.Prelude.Outcome.{Outcome, ok, err, panic, after}
use cpu_policy_plugins_for_k.Errors.{Error, cannot_reallocate}
use cpu_policy_plugins_for_k.Cpuset.{Cpusets}
use cpu_policy_plugins_for_k.Runtime.{GoRuntime}
use cpu_policy_plugins_for_k.Sysfs.{System, cpu_at, cpu_ids, new_id_set, new_id_set_from_int_slice}
use cpu_policy_plugins_for_k.Sysfs.Control.{set_cpus_online, set_frequency_limits}
use cpu_policy_plugins_for_k.Config.{Config, NodeConfig}
use cpu_policy_plugins_for_k.Pool.State.{Pool, PoolSet, Host}
use cpu_policy_plugins_for_k.Pool.Figures.{update_metrics}
use cpu_policy_plugins_for_k.Pool.Allocation.{allocate_exclusive}
use cpu_policy_plugins_for_k.Pool.Prepare.{prepare_config}
use cpu_policy_plugins_for_k.Pool.Restore.{restore_config}

module _ ⦃c : Cpusets⦄ where
  open c use {CPUSet, new_cpuset, size, is_empty, equals, union, difference, to_slice}

  -- A pool takes the CPUs of its configuration that are not pinned. A configuration with no CPUs
  -- is a nil dereference.
  unfoldable pub activate : Config → Pool → Option Pool
  activate cfg p = elim cfg.cpus [
    | none ↦ none
    | some cpus ↦
        let shared = difference cpus p.pinned in
        some (if equals p.shared shared then p else record p { shared = shared })
  ]

  -- The loop of `reconcileConfig` over the pools.
  unfoldable pub activate_pools : List String → GoMap String Pool → Option (GoMap String Pool)
  activate_pools [] pools = some pools
  activate_pools (pool ∷ rest) pools = elim (get pool pools) [
    | none ↦ activate_pools rest pools
    | some p ↦ elim p.cfg [
      | none ↦ activate_pools rest (delete pool pools)
      | some cfg ↦ elim (activate cfg p) [
        | none ↦ none
        | some p' ↦ activate_pools rest (put pool p' pools)
      ]
    ]
  ]

  -- Reset of all exclusive allocations of the pools.
  unfoldable pub reset_pinned : GoMap String Pool → GoMap String Pool
  reset_pinned [] = []
  reset_pinned ((name, p) ∷ pools) =
      (name, record p { shared = union p.shared p.pinned; pinned = new_cpuset [] })
      ∷ reset_pinned pools

  module _ ⦃g : GoRuntime⦄ ⦃h : Host⦄ where
    open g use {range_names}

    -- The loop of `updateAllocations` over the containers.
    unfoldable pub reallocate : List String → PoolSet → PoolSet × Outcome Error (Unit {0})
    reallocate [] ps = (ps, ok tt)
    reallocate (id ∷ rest) ps = elim (get id ps.containers) [
      | none ↦ reallocate rest ps
      | some box ↦
          let (ps', out) = allocate_exclusive id box.pool (pos (size box.cpus)) ps in
          let further = reallocate rest ps' in
          let tried : PoolSet × Outcome Error (Unit {0}) = elim out [
            | ok cset ↦ further
            | err e ↦ (ps', err (cannot_reallocate box.pool id))
            | panic ↦ (ps', panic)
          ] in
          if nat_beq (size box.cpus) 0 then reallocate rest ps else tried
    ]

    -- `updateAllocations`
    unfoldable pub update_allocations : PoolSet → PoolSet × Outcome Error (Unit {0})
    update_allocations ps =
        reallocate (range_names "updateAllocations" (keys ps.containers))
          (record ps { pools = reset_pinned ps.pools })

    -- `updateCpuOnlineState`
    unfoldable pub update_cpu_online_state : PoolSet → PoolSet × Outcome Error (Unit {0})
    update_cpu_online_state ps =
        let (sys, out) =
          set_cpus_online (h.write_online true) h.online_entries true (new_id_set (cpu_ids ps.sys))
            ps.sys in
        let (sys', out') =
          set_cpus_online (h.write_online false) h.online_entries false
            (new_id_set_from_int_slice (to_slice ps.offlined)) sys in
        let second : PoolSet × Outcome Error (Unit {0}) = elim out' [
          | ok changed ↦ (record ps { sys = sys' }, ok tt)
          | err e ↦ (record ps { sys = sys' }, err e)
          | panic ↦ (record ps { sys = sys' }, panic)
        ] in
        elim out [
          | err e ↦ (record ps { sys = sys }, err e)
          | panic ↦ (record ps { sys = sys }, panic)
          | ok changed ↦ if is_empty ps.offlined then (record ps { sys = sys }, ok tt) else second
        ]

    -- The CPUs of a pool in `updateCpuFrequencyRange`.
    unfoldable pub limit_cpus : System → Config → List ℤ → Outcome Error (Unit {0})
    limit_cpus sys cfg [] = ok tt
    limit_cpus sys cfg (id ∷ rest) =
        let later = limit_cpus sys cfg rest in
        elim (cpu_at sys id) [
          | none ↦ panic
          | some cpu ↦ elim (set_frequency_limits h.write_frequency cpu cfg.min_freq cfg.max_freq) [
            | ok done ↦ later
            | err e ↦ err e
            | panic ↦ panic
          ]
        ]

    -- `updateCpuFrequencyRange`
    unfoldable pub update_cpu_frequency_range :
        System → GoMap String Pool → List String → Outcome Error (Unit {0})
    update_cpu_frequency_range sys pools [] = ok tt
    update_cpu_frequency_range sys pools (name ∷ names) =
        let later = update_cpu_frequency_range sys pools names in
        elim (get name pools) [
          | none ↦ later
          | some p ↦ elim p.cfg [
            | none ↦ panic
            | some cfg ↦
                if nat_beq cfg.min_freq 0 && nat_beq cfg.max_freq 0
                then later
                else elim (limit_cpus sys cfg (to_slice (union p.shared p.pinned))) [
                  | ok done ↦ later
                  | err e ↦ err e
                  | panic ↦ panic
                ]
          ]
        ]

    -- `updateHwConfiguration`
    unfoldable pub update_hw_configuration : PoolSet → PoolSet × Outcome Error (Unit {0})
    update_hw_configuration ps = after (update_cpu_online_state ps) λ ps' done. (
      ps',
      update_cpu_frequency_range ps'.sys ps'.pools
          (range_names "updateCpuFrequencyRange" (keys ps'.pools)),
    )

    -- A call whose error the caller drops; a panic still ends it.
    unfoldable pub ignoring_error :
        PoolSet × Outcome Error (Unit {0})
        → (PoolSet → PoolSet × Outcome Error (Unit {0}))
        → PoolSet × Outcome Error (Unit {0})
    ignoring_error (ps, ok done) f = f ps
    ignoring_error (ps, err e) f = f ps
    ignoring_error (ps, panic) f = (ps, panic)

    -- What follows a configuration that is prepared: it becomes the current one.
    unfoldable pub activate_config : PoolSet → PoolSet × Outcome Error (Unit {0})
    activate_config ps =
        elim (activate_pools (range_names "reconcileConfig" (keys ps.pools)) ps.pools) [
          | none ↦ (ps, panic)
          | some pools ↦
              ignoring_error (update_allocations (record ps { pools = pools })) λ allocated.
                ignoring_error (update_metrics allocated) λ measured.
                  ignoring_error (update_hw_configuration measured)
                    λ set. (record set { current_cfg = set.pending_cfg; pending_cfg = none }, ok tt)
        ]

    -- `reconcileConfig`
    unfoldable pub reconcile_config : PoolSet → PoolSet × Outcome Error (Unit {0})
    reconcile_config ps = elim ps.pending_cfg [
      | none ↦ (ps, ok tt)
      | some ncfg ↦
          let ((prepared, cfg), out) = prepare_config ncfg ps in
          let pending = record prepared { pending_cfg = some cfg } in
          elim out [
            | ok done ↦ activate_config pending
            | err e ↦ ((restore_config pending).0, err e)
            | panic ↦ (pending, panic)
          ]
    ]

    -- `Reconfigure(ncfg)`
    unfoldable pub reconfigure : Option NodeConfig → PoolSet → PoolSet × Outcome Error (Unit {0})
    reconfigure none ps = (ps, ok tt)
    reconfigure (some ncfg) ps = reconcile_config (record ps { pending_cfg = some ncfg })
