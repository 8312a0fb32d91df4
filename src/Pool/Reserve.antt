-- ===== src/Pool/Reserve.antt =====
-- cmd/cpu-pool-policy/pool/pool.go: the hyperthreads of CPUs, and the CPUs of the reserved pool.
use cpu_policy_plugins_for_k.Prelude.{
  Bool, false, not, Option, none, some, List, [], ◌∷◌, string_eq, ◌==◌, if◌then◌else◌, take, select,
  ◌++◌,
}
use cpu_policy_plugins_for_k.Prelude.GoMap.{get, put}
use cpu_policy_plugins_for_k.Prelude.Int.{ℤ, pos, negsuc, int_eq, ltb_ℤ, ◌-ℤ◌}
use cpu_policy_plugins_for_k.Prelude.Outcome.{Outcome, ok, err, panic}
use cpu_policy_plugins_for_k.Errors.{
  Error, no_reserved_configuration, cpu_0_not_reserved, failed_to_reserve,
}
use cpu_policy_plugins_for_k.Cpuset.{Cpusets}
use cpu_policy_plugins_for_k.Runtime.{GoRuntime}
use cpu_policy_plugins_for_k.Sysfs.{System, cpu_at, cpu_ids, thread_cpuset}
use cpu_policy_plugins_for_k.Config.{Config, NodeConfig, reserved_pool}

module _ ⦃c : Cpusets⦄ where
  open c use {
    CPUSet, new_cpuset, contains, size, is_empty, is_subset_of, union, difference, to_slice,
  }

  -- `htSiblingCPUSet`; a CPU that the machine does not have is a nil dereference.
  unfoldable pub ht_siblings : System → List ℤ → Option (List ℤ)
  ht_siblings sys [] = some []
  ht_siblings sys (id ∷ ids) =
      let rest = ht_siblings sys ids in
      elim (cpu_at sys id) [
        | none ↦ none
        | some cpu ↦ elim rest [
          | none ↦ none
          | some sids ↦
              some (select (λ sid. not (sid == id)) (to_slice (thread_cpuset cpu)) ++ sids)
        ]
      ]

  -- The loop of `prepareReservedPool`: the CPUs picked and the number still wanted. A negative
  -- number makes a slice with a negative bound, which panics. The ids are those of the machine, so
  -- that a look-up succeeds.
  unfoldable pub reserve_loop : System → List ℤ → CPUSet → ℤ → Outcome Error (CPUSet × ℤ)
  reserve_loop sys [] cset ncpu = ok (cset, ncpu)
  reserve_loop sys (id ∷ ids) cset ncpu =
      let threads : CPUSet = elim (cpu_at sys id) [
        | none ↦ new_cpuset []
        | some cpu ↦ thread_cpuset cpu
      ] in
      let tset = difference threads cset in
      let more = reserve_loop sys ids (union cset tset) (ncpu -ℤ pos (size tset)) in
      if ltb_ℤ ncpu (pos (size tset))
      then elim ncpu [
        | pos n ↦ ok (union cset (new_cpuset (take n (to_slice tset))), pos 0)
        | negsuc n ↦ panic
      ]
      else if ncpu -ℤ pos (size tset) == pos 0
      then ok (union cset tset, pos 0)
      else more

  -- The pointer to CPUs is set and the set is not empty.
  unfoldable pub has_cpus : Option CPUSet → Bool
  has_cpus none = false
  has_cpus (some cset) = not (is_empty cset)

  abbrev pub cpus_or_empty : Option CPUSet → CPUSet
  cpus_or_empty none = new_cpuset []
  cpus_or_empty (some cset) = cset

  module _ ⦃g : GoRuntime⦄ where
    open g use {sort_slice, range_names}

    -- The entry of the reserved pool with CPUs picked for it.
    unfoldable pub pick_reserved : System → Config → Outcome Error Config
    pick_reserved sys rc =
        elim (reserve_loop sys (sort_slice (λ i j. ltb_ℤ i j) (cpu_ids sys)) (new_cpuset [])
          rc.cpu_count) [
            | err e ↦ err e
            | panic ↦ panic
            | ok (cset, ncpu) ↦
                if ltb_ℤ (pos 0) ncpu
                then err (failed_to_reserve ncpu)
                else ok (record rc { cpus = some cset; cpu_count = pos (size cset) })
          ]

    -- `prepareReservedPool(cfg)`
    unfoldable pub prepare_reserved_pool : System → NodeConfig → Outcome Error NodeConfig
    prepare_reserved_pool sys cfg = elim (get reserved_pool cfg) [
      | none ↦ err no_reserved_configuration
      | some rc ↦
          if has_cpus rc.cpus
          then (if not (contains (cpus_or_empty rc.cpus) (pos 0))
              then err cpu_0_not_reserved
              else ok cfg)
          else elim (pick_reserved sys rc) [
            | ok rc' ↦ ok (put reserved_pool rc' cfg)
            | err e ↦ err e
            | panic ↦ panic
          ]
    ]
