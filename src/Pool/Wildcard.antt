-- ===== src/Pool/Wildcard.antt =====
-- cmd/cpu-pool-policy/pool/pool.go: a reserved pool with a negative number of CPUs, which is what the
-- wildcard in its configuration stands for.
use cpu_policy_plugins_for_k.Prelude.{
  ℕ, ◌≡◌, refl, true, false, some, List, [], ◌∷◌, arith, elem, string_eq, ◌∙◌, ap,
}
use cpu_policy_plugins_for_k.Prelude.GoMap.{get}
use cpu_policy_plugins_for_k.Prelude.Int.{ℤ, negsuc, int_eq, ltb_ℤ}
use cpu_policy_plugins_for_k.Prelude.Outcome.{panic}
use cpu_policy_plugins_for_k.Cpuset.{Cpusets}
use cpu_policy_plugins_for_k.Runtime.{GoRuntime, elem-sort_slice}
use cpu_policy_plugins_for_k.Sysfs.{System, cpu_ids}
use cpu_policy_plugins_for_k.Config.{Config, NodeConfig, reserved_pool}
use cpu_policy_plugins_for_k.Pool.Reserve.{
  reserve_loop, has_cpus, pick_reserved, prepare_reserved_pool,
}

module _ ⦃c : Cpusets⦄ where
  open c use {CPUSet, new_cpuset}

  negative_panics :
      (sys : System) (ids : List ℤ) (id : ℤ) (cset : CPUSet) (k : ℕ)
      → elem id ids ≡ true
      → reserve_loop sys ids cset (negsuc k) ≡ panic
  unfolding reserve_loop
  negative_panics sys [] id cset k m = absurd (ground arith)
  negative_panics sys (i ∷ ids) id cset k m = ground arith

  module _ ⦃g : GoRuntime⦄ where
    open g use {sort_slice}

    -- On a machine with a CPU, `prepareReservedPool` panics if the reserved pool has no CPUs of its
    -- own and a negative number of CPUs.
    pub prepare_reserved_pool_panics :
        (sys : System) (cfg : NodeConfig) (rc : Config) (k : ℕ) (id : ℤ)
        → get reserved_pool cfg ≡ some rc
        → has_cpus rc.cpus ≡ false
        → rc.cpu_count ≡ negsuc k
        → elem id (cpu_ids sys) ≡ true
        → prepare_reserved_pool sys cfg ≡ panic
    unfolding prepare_reserved_pool pick_reserved
    prepare_reserved_pool_panics sys cfg rc k id known no_cpus count m =
        let ids = sort_slice ltb_ℤ (cpu_ids sys) in
        let e : reserve_loop sys ids (new_cpuset []) rc.cpu_count ≡ panic =
          ap (reserve_loop sys ids (new_cpuset [])) count
          ∙ negative_panics sys ids id (new_cpuset []) k
              (elem-sort_slice ltb_ℤ (cpu_ids sys) id ∙ m) in
        let f : pick_reserved sys rc ≡ panic = rw (e, pick_reserved) refl in
        rw (known, prepare_reserved_pool) (rw (no_cpus, f) refl)
