-- ===== src/Pool/Apart.antt =====
-- cmd/cpu-pool-policy/pool/pool.go: the CPUs that the first loop of `prepareConfig` hands out to the
-- pools that name theirs. The pools that claim what is left over are not covered.
use cpu_policy_plugins_for_k.Prelude.{
  ◌≡◌, refl, true, false, none, some, List, [], ◌∷◌, String, string_eq, ◌==◌, arith, elem,
  Bool-cases, Option-cases, inl, inr, sym, ap, ◌∙◌,
}
use cpu_policy_plugins_for_k.Prelude.GoMap.{get}
use cpu_policy_plugins_for_k.Prelude.Int.{int_eq}
use cpu_policy_plugins_for_k.Prelude.Outcome.{Outcome, ok, after, after-ok}
use cpu_policy_plugins_for_k.Errors.{Error}
use cpu_policy_plugins_for_k.Cpuset.{Cpusets, Disjoint}
use cpu_policy_plugins_for_k.Sysfs.{System}
use cpu_policy_plugins_for_k.Config.{Config, NodeConfig, claim_leftover}
use cpu_policy_plugins_for_k.Pool.Prepare.{Preparing, prepare_pool, prepare_pools}
use cpu_policy_plugins_for_k.Pool.Claims.{
  Shrinks, Claimed, Configured, Shrinks-refl, Shrinks-trans, Claimed-Shrinks, prepare_pool-Claimed,
  prepare_pool-Shrinks,
}

module _ ⦃c : Cpusets⦄ where
  open c use {
    CPUSet, new_cpuset, contains, is_subset_of, union, difference, to_slice, contains-difference,
    is_subset_of_iff,
  }

  -- What a run over the names of a configuration has claimed: for every pool with CPUs of its own,
  -- CPUs that were free and are not any more, and for no two pools the same.
  pub record AllClaimed (ncfg : NodeConfig) (names : List String) (v w : Preparing) : Type 0 where
    pub shrinks : Shrinks v w
    pub claimed :
        (name : String) (s : CPUSet)
        → elem name names ≡ true
        → Configured ncfg name s
        → Claimed v w s
    pub disjoint :
        (name other : String) (s t : CPUSet)
        → elem name names ≡ true
        → elem other names ≡ true
        → (name == other) ≡ false
        → Configured ncfg name s
        → Configured ncfg other t
        → Disjoint s t

  pub prepare_pools_skip :
      (sys : System) (ncfg : NodeConfig) (pool : String) (rest : List String) (v : Preparing)
      → get pool ncfg ≡ none
      → prepare_pools sys ncfg (pool ∷ rest) v ≡ prepare_pools sys ncfg rest v
  unfolding prepare_pools
  prepare_pools_skip sys ncfg pool rest v e = rw (e, prepare_pools) refl

  pub prepare_pools_step :
      (sys : System) (ncfg : NodeConfig) (pool : String) (rest : List String) (v : Preparing)
      (pcfg : Config)
      → get pool ncfg ≡ some pcfg
      → prepare_pools sys ncfg (pool ∷ rest) v
        ≡ after (prepare_pool sys pool pcfg v) (λ w done. prepare_pools sys ncfg rest w)
  unfolding prepare_pools
  prepare_pools_step sys ncfg pool rest v pcfg e = rw (e, prepare_pools) refl

  AllClaimed-skip :
      (ncfg : NodeConfig) (pool : String) (rest : List String) (v w : Preparing)
      → get pool ncfg ≡ none
      → AllClaimed ncfg rest v w
      → AllClaimed ncfg (pool ∷ rest) v w
  AllClaimed-skip ncfg pool rest v w e r =
      let later : (name : String) (s : CPUSet)
          → elem name (pool ∷ rest) ≡ true
          → Configured ncfg name s
          → elem name rest ≡ true =
        λ name s at own. ground (arith, e, own.1, string_eq.equal_iff pool name) in
      record {
        shrinks = r.shrinks;
        claimed = λ name s at own. r.claimed name s (later name s at own) own;
        disjoint = λ name other s t at also differ own its.
            r.disjoint name other s t (later name s at own) (later other t also its) differ own its;
      }

  module _ (ncfg : NodeConfig) (pool : String) (rest : List String) (v w u : Preparing)
      (pcfg : Config) (e : get pool ncfg ≡ some pcfg) (shrunk : Shrinks v w)
      (step : (s : CPUSet)
        → (pcfg.cpu_count == claim_leftover) ≡ false
        → pcfg.cpus ≡ some s
        → Claimed v w s)
      (r : AllClaimed ncfg rest w u) where
    head-Claimed :
        (name : String) (s : CPUSet)
        → (pool == name) ≡ true
        → Configured ncfg name s
        → Claimed v w s
    head-Claimed name s same (cfg, known, fixed, cpus) =
        let same_cfg : pcfg ≡ cfg = ground (arith, e, known, string_eq.equal_iff pool name) in
        step s (rw same_cfg fixed) (rw same_cfg cpus)

    later-Claimed :
        (name : String) (s : CPUSet)
        → elem name (pool ∷ rest) ≡ true
        → (pool == name) ≡ false
        → Configured ncfg name s
        → Claimed w u s
    later-Claimed name s at other own = r.claimed name s (ground arith) own

    head-Disjoint :
        (name other : String) (s t : CPUSet)
        → elem other (pool ∷ rest) ≡ true
        → (pool == name) ≡ true
        → (pool == other) ≡ false
        → Configured ncfg name s
        → Configured ncfg other t
        → Disjoint s t
    head-Disjoint name other s t at same differ own its x =
        let mine = head-Claimed name s same own in
        let theirs = later-Claimed other t at differ its in
        ground (arith, mine.now_taken x, theirs.was_free x)

    AllClaimed-step : AllClaimed ncfg (pool ∷ rest) v u
    AllClaimed-step = record {
      shrinks = Shrinks-trans v w u shrunk r.shrinks;
      claimed = λ name s at own. elim (Bool-cases (pool == name)) [
        | inl same ↦ Claimed-Shrinks v w u s (head-Claimed name s same own) r.shrinks
        | inr other ↦
            let q = later-Claimed name s at other own in
            record {
              shrinks = Shrinks-trans v w u shrunk r.shrinks;
              was_free = λ x h. shrunk.fewer x (q.was_free x h);
              now_taken = q.now_taken;
            }
      ];
      disjoint = λ name other s t at also differ own its. elim (Bool-cases (pool == name)) [
        | inl same ↦ elim (Bool-cases (pool == other)) [
          | inl both ↦ absurd (
              ground (
                arith,
                string_eq.equal_iff pool name,
                string_eq.equal_iff pool other,
                string_eq.equal_iff name other,
              ))
          | inr apart ↦ head-Disjoint name other s t also same apart own its
        ]
        | inr first ↦ elim (Bool-cases (pool == other)) [
          | inl same ↦ λ x. ground (arith, head-Disjoint other name t s at same first its own x)
          | inr second ↦ r.disjoint name other s t (ground arith) (ground arith) differ own its
        ]
      ];
    }

  -- If `prepareConfig` gets through its first loop over the pools, then the CPUs that are named for
  -- a pool were free before and are not free after, and no two pools name the same CPU, whatever
  -- the order in which the pools are visited. The isolated and the other free CPUs are apart at the
  -- start.
  pub prepare_pools-AllClaimed :
      (sys : System) (ncfg : NodeConfig) (names : List String) (v : Preparing)
      → Disjoint v.isolated v.available
      → (prepare_pools sys ncfg names v).1 ≡ ok tt
      → AllClaimed ncfg names v (prepare_pools sys ncfg names v).0
  unfolding prepare_pools
  prepare_pools-AllClaimed sys ncfg [] v apart good = record {
    shrinks = Shrinks-refl v v refl refl;
    claimed = λ name s at own. absurd (ground arith);
    disjoint = λ name other s t at. absurd (ground arith);
  }
  prepare_pools-AllClaimed sys ncfg (pool ∷ rest) v apart good =
      elim (Option-cases (get pool ncfg)) [
        | inl e ↦
            let whole = prepare_pools_skip sys ncfg pool rest v e in
            let r =
              prepare_pools-AllClaimed sys ncfg rest v apart
                (ap (λ (r : Preparing × Outcome Error (Unit {0})). r.1) (sym whole) ∙ good) in
            rw whole (AllClaimed-skip ncfg pool rest v _ e r)
        | inr (pcfg, e) ↦
            let whole = prepare_pools_step sys ncfg pool rest v pcfg e in
            let step = prepare_pool sys pool pcfg v in
            let fine = ap (λ (r : Preparing × Outcome Error (Unit {0})). r.1) (sym whole) ∙ good in
            let (done, first, later) =
              after-ok step (λ w done. prepare_pools sys ncfg rest w) tt fine in
            let shrunk = prepare_pool-Shrinks sys pool pcfg v apart first in
            let r =
              prepare_pools-AllClaimed sys ncfg rest step.0 (shrunk.apart apart)
                (ap (λ (r : Preparing × Outcome Error (Unit {0})). r.1) (sym later) ∙ fine) in
            rw (whole ∙ later) (
              AllClaimed-step ncfg pool rest v step.0 _ pcfg e shrunk
                (λ s fixed own. prepare_pool-Claimed sys pool pcfg s v apart fixed own first) r)
      ]
