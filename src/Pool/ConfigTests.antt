-- ===== src/Pool/ConfigTests.antt =====
-- cmd/cpu-pool-policy/pool: the theorems about preparing a configuration, on a machine of three
-- CPUs, of which 0 and 1 are hyperthreads of one core.
use cpu_policy_plugins_for_k.Prelude.{
  Distinct, arith, ℕ, suc, ◌+◌, ◌≡◌, refl, Bool, true, false, List, [], ◌∷◌, Option, none, some,
  String, string_eq, elem, ◌⊎◌,
}
use cpu_policy_plugins_for_k.Prelude.GoMap.{get, put}
use cpu_policy_plugins_for_k.Prelude.Int.{ℤ, pos, negsuc, int_eq, ◌-ℤ◌}
use cpu_policy_plugins_for_k.Prelude.Outcome.{ok, err, panic}
use cpu_policy_plugins_for_k.Errors.{failed_to_reserve, cpus_not_available}
use cpu_policy_plugins_for_k.Sysfs.{
  cpu_at, cpu_ids, thread_cpuset, cpuset_of, system_cpuset, offlined,
}
use cpu_policy_plugins_for_k.Allocator.Tests.{sets, runtime, machine}
use cpu_policy_plugins_for_k.Config.{Config, NodeConfig}
use cpu_policy_plugins_for_k.Pool.Reserve.{
  reserve_loop, pick_reserved, ht_siblings, has_cpus, prepare_reserved_pool,
}
use cpu_policy_plugins_for_k.Pool.Picks.{threads_of}
use cpu_policy_plugins_for_k.Pool.Reserving.{IsReserve, pick_reserved_lem}
use cpu_policy_plugins_for_k.Pool.Prepare.{
  Preparing, claim_cpus, claim_siblings, configure_pool, prepare_pool, prepare_pools, note_leftover,
  leftover_of, set_leftover, finish_pools, prepare_config,
}
use cpu_policy_plugins_for_k.Pool.State.{Pool, PoolSet}
use cpu_policy_plugins_for_k.Pool.Tests.{host, box, figures}
use cpu_policy_plugins_for_k.Pool.Restore.{configs}
use cpu_policy_plugins_for_k.Pool.Reconcile.{reconcile_config}
use cpu_policy_plugins_for_k.Pool.Preserve.{SameCpus}
use cpu_policy_plugins_for_k.Pool.Refused.{reconcile_config_keeps}
use cpu_policy_plugins_for_k.Pool.Wildcard.{prepare_reserved_pool_panics}
use cpu_policy_plugins_for_k.Pool.Claims.{Configured}
use cpu_policy_plugins_for_k.Pool.Apart.{AllClaimed}
use cpu_policy_plugins_for_k.Pool.Pooled.{Pooled, prepare_pools-Pooled}

program : Unit {0}
unfolding has_cpus prepare_reserved_pool finish_pools prepare_config system_cpuset offlined get put
    cpu_at thread_cpuset cpuset_of ht_siblings claim_cpus claim_siblings configure_pool prepare_pool
    prepare_pools note_leftover leftover_of set_leftover cpu_ids reserve_loop pick_reserved ◌-ℤ◌
program = tt

abbrev pool_of : ℤ → Option (List ℤ) → Bool → Config
pool_of n cpus ht_free = record {
  cpu_count = n;
  cpus = cpus;
  isolated = false;
  disable_ht = ht_free;
  min_freq = 0;
  max_freq = 0;
}

abbrev reserved : Config
reserved = pool_of (pos 2) none false

two_reserved :
    pick_reserved machine reserved ≡ ok (record reserved { cpus = some (pos 0 ∷ pos 1 ∷ []) })
unfolding program
two_reserved = refl

ids-Distinct : Distinct (cpu_ids machine)
unfolding program
ids-Distinct a = ground arith

pick_reserved_lem_example :
    ((s : List ℤ) × (pick_reserved machine reserved
        ≡ ok (record reserved { cpus = some s; cpu_count = pos 2 }))
      × IsReserve machine 2 s)
    ⊎ ((m : ℕ) × (s : List ℤ) × (pick_reserved machine reserved
          ≡ err (failed_to_reserve (pos (suc m))))
        × (sets.size s + suc m ≡ 2)
        × ((id x : ℤ)
            → elem id (cpu_ids machine) ≡ true
            → sets.contains (threads_of machine id) x ≡ true
            → sets.contains s x ≡ true))
pick_reserved_lem_example = pick_reserved_lem machine reserved 2 ids-Distinct refl

-- A pool free of hyperthreads on the CPU 0, whose sibling goes offline, and one on the CPU 2.
abbrev config : NodeConfig
config =
    ("quiet", pool_of (pos 1) (some (pos 0 ∷ [])) true)
    ∷ ("p", pool_of (pos 1) (some (pos 2 ∷ [])) false)
    ∷ []

abbrev begun : Preparing
begun = record {
  pools = [];
  isolated = [];
  available = pos 0 ∷ pos 1 ∷ pos 2 ∷ [];
  offlined = [];
  leftover_isolated = "";
  leftover_shared = "";
}

abbrev both : List String
both = "quiet" ∷ "p" ∷ []

both_fit : (prepare_pools machine config both begun).1 ≡ ok tt
unfolding program
both_fit = refl

prepare_pools-Pooled_example :
    AllClaimed config both begun (prepare_pools machine config both begun).0
    × ((name : String) (s : List ℤ)
        → elem name both ≡ true
        → Configured config name s
        → Pooled
            (get name config)
            s
            (get name begun.pools)
            (get name (prepare_pools machine config both begun).0.pools))
prepare_pools-Pooled_example = prepare_pools-Pooled machine config both begun (λ x. refl) both_fit

-- A pool in use, and a new configuration in which two pools want the CPU 2.
abbrev used_config : NodeConfig
used_config = ("p", pool_of (pos 1) (some (pos 2 ∷ [])) false) ∷ []

abbrev clashing : NodeConfig
clashing =
    ("reserved", pool_of (pos 1) (some (pos 0 ∷ [])) false)
    ∷ ("p", pool_of (pos 1) (some (pos 2 ∷ [])) false)
    ∷ ("q", pool_of (pos 1) (some (pos 2 ∷ [])) false)
    ∷ []

abbrev in_use : Pool
in_use = record { shared = []; pinned = pos 2 ∷ []; used = pos 0; cfg = get "p" used_config }

abbrev waiting : PoolSet
waiting = record {
  pools = ("p", in_use) ∷ [];
  containers = ("a", box) ∷ [];
  sys = machine;
  offlined = [];
  metrics = figures;
  current_cfg = some used_config;
  pending_cfg = some clashing;
}

clash : (prepare_config clashing waiting).1 ≡ err (cpus_not_available "q")
unfolding program
clash = refl

reconcile_config_keeps_example :
    ((reconcile_config waiting).1 ≡ err (cpus_not_available "q"))
    × ((reconcile_config waiting).0.containers ≡ waiting.containers)
    × ((name : String) (pc : Config) (p : Pool)
        → get name (configs waiting.current_cfg) ≡ some pc
        → get name waiting.pools ≡ some p
        → (q : Pool) × (get name (reconcile_config waiting).0.pools ≡ some q) × SameCpus q p)
reconcile_config_keeps_example =
    reconcile_config_keeps clashing (cpus_not_available "q") waiting refl clash

-- The reserved pool is configured by the wildcard.
abbrev starred : NodeConfig
starred = ("reserved", pool_of (negsuc 0) none false) ∷ []

prepare_reserved_pool_panics_example : prepare_reserved_pool machine starred ≡ panic
unfolding program
prepare_reserved_pool_panics_example =
    prepare_reserved_pool_panics machine starred (pool_of (negsuc 0) none false) 0 (pos 0) refl refl
      refl refl
