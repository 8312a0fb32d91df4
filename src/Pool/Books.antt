-- ===== src/Pool/Books.antt =====
-- cmd/cpu-pool-policy/pool/pool.go: `updatePoolMetrics` does not touch the books of a pool set.
use cpu_policy_plugins_for_k.Prelude.{
  ◌≡◌, refl, Bool, true, false, String, string_eq, ◌==◌, Bool-cases, inl, inr,
}
use cpu_policy_plugins_for_k.Prelude.Outcome.{Outcome, ok, err, panic, after}
use cpu_policy_plugins_for_k.Errors.{Error}
use cpu_policy_plugins_for_k.Cpuset.{Cpusets}
use cpu_policy_plugins_for_k.Runtime.{GoRuntime}
use cpu_policy_plugins_for_k.Pool.State.{PoolSet}
use cpu_policy_plugins_for_k.Pool.Figures.{
  update_pool_metrics, publish_metrics, cache_pool_metrics, get_pool_metrics,
}
use cpu_policy_plugins_for_k.Pool.Allocation.{answer}
use cpu_policy_plugins_for_k.Pool.Balance.{Balanced}

module _ ⦃c : Cpusets⦄ where
  open c use {
    CPUSet, contains, is_empty, new_cpuset, union, difference, contains-new, contains-union,
    contains-difference, is_empty_lem, size,
  }

  -- The pool sets differ in their metrics only, as far as the books go.
  abbrev pub SameBooks : PoolSet → PoolSet → Type 0
  SameBooks ps qs =
      (ps.pools ≡ qs.pools) × (ps.containers ≡ qs.containers) × (ps.pending_cfg ≡ qs.pending_cfg)

  abbrev pub IsBalanced : PoolSet → Type 0
  IsBalanced ps = Balanced ps.pools ps.containers

  cache_pool_metrics-SameBooks :
      (name : String) (ps : PoolSet) → SameBooks (cache_pool_metrics name ps) ps
  unfolding cache_pool_metrics
  cache_pool_metrics-SameBooks name ps = elim (Bool-cases ((get_pool_metrics name ps).0 == "")) [
    | inl e ↦ rw e (refl, refl, refl)
    | inr e ↦ rw e (refl, refl, refl)
  ]

  module _ ⦃g : GoRuntime⦄ where
    pub update_pool_metrics-SameBooks :
        (name : String) (now : Bool) (ps : PoolSet)
        → SameBooks (update_pool_metrics name now ps).0 ps
    unfolding update_pool_metrics publish_metrics
    update_pool_metrics-SameBooks name true ps = cache_pool_metrics-SameBooks name ps
    update_pool_metrics-SameBooks name false ps = cache_pool_metrics-SameBooks name ps

    pub IsBalanced-SameBooks : (ps qs : PoolSet) → SameBooks ps qs → IsBalanced qs → IsBalanced ps
    IsBalanced-SameBooks ps qs (e, f, k) b = rw (e, f) b

    pub after-same :
        (x : PoolSet × Outcome Error (Unit {0})) (v : CPUSet)
        → (after x (λ s done. answer s v)).0 ≡ x.0
    after-same (s, ok done) v = refl
    after-same (s, err e) v = refl
    after-same (s, panic) v = refl

    pub answered-IsBalanced :
        (name : String) (qs : PoolSet) (v : CPUSet)
        → IsBalanced qs
        → IsBalanced (after (update_pool_metrics name true qs) (λ s done. answer s v)).0
    answered-IsBalanced name qs v b = rw (after-same (update_pool_metrics name true qs) v) (
        IsBalanced-SameBooks (update_pool_metrics name true qs).0 qs
          (update_pool_metrics-SameBooks name true qs) b)

    pub answered-SameBooks :
        (name : String) (qs : PoolSet) (v : CPUSet)
        → SameBooks (after (update_pool_metrics name true qs) (λ s done. answer s v)).0 qs
    answered-SameBooks name qs v =
        rw (after-same (update_pool_metrics name true qs) v)
          (update_pool_metrics-SameBooks name true qs)
