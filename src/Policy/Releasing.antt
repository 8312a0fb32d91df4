-- ===== src/Policy/Releasing.antt =====
-- cmd/cpu-pool-policy/pool/pool.go: `ReleaseCPU` while no configuration is pending and the figures
-- have a resource on the server.
use cpu_policy_plugins_for_k.Prelude.{
  ◌≡◌, refl, true, none, some, String, string_eq, ◌∙◌, ap, inl, inr, Option-cases, ==-refl,
}
use cpu_policy_plugins_for_k.Prelude.GoMap.{get, get-delete}
use cpu_policy_plugins_for_k.Prelude.Int.{int_eq}
use cpu_policy_plugins_for_k.Prelude.Outcome.{ok}
use cpu_policy_plugins_for_k.Cpuset.{Cpusets}
use cpu_policy_plugins_for_k.Runtime.{GoRuntime}
use cpu_policy_plugins_for_k.Metrics.{ApiMetric, Metrics}
use cpu_policy_plugins_for_k.Pool.State.{Container, PoolSet, Host}
use cpu_policy_plugins_for_k.Pool.Figures.{update_pool_metrics}
use cpu_policy_plugins_for_k.Pool.Reconcile.{reconcile_config, ignoring_error}
use cpu_policy_plugins_for_k.Pool.Release.{forget_container, release_cpu}
use cpu_policy_plugins_for_k.Pool.Books.{update_pool_metrics-SameBooks}
use cpu_policy_plugins_for_k.Pool.Releases.{reconcile_config_quiet, release_cpu_known}
use cpu_policy_plugins_for_k.Pool.Granted.{update_pool_metrics_well}
use cpu_policy_plugins_for_k.Policy.Running.{release_cpu_lost, release_cpu_unknown}

module _ ⦃c : Cpusets⦄ ⦃g : GoRuntime⦄ ⦃h : Host⦄ where
  released_well :
      (name : String) (qs : PoolSet) (m : ApiMetric)
      → qs.pending_cfg ≡ none
      → qs.metrics.metric ≡ some m
      → (ignoring_error
          (update_pool_metrics name true qs)
          λ measured. ignoring_error (reconcile_config measured) λ r. (r, ok tt)).1
        ≡ ok tt
  unfolding ignoring_error
  released_well name qs m quiet there =
      let measured = update_pool_metrics name true qs in
      let same = update_pool_metrics-SameBooks name true qs in
      rw (update_pool_metrics_well name qs m there, ignoring_error)
        (rw (reconcile_config_quiet measured.0 (same.2 ∙ quiet)) refl)

  pub forgotten :
      (id : String) (box : Container) (ps : PoolSet)
      → ((forget_container id box ps).pending_cfg ≡ ps.pending_cfg)
        × ((forget_container id box ps).metrics ≡ ps.metrics)
  unfolding forget_container
  forgotten id box ps = elim (Option-cases (get box.pool ps.pools)) [
    | inl e ↦ rw (e, forget_container) (refl, refl)
    | inr (p, e) ↦ rw (e, forget_container) (refl, refl)
  ]

  pub release_cpu_well :
      (id : String) (ps : PoolSet) (m : ApiMetric)
      → ps.pending_cfg ≡ none
      → ps.metrics.metric ≡ some m
      → (release_cpu id ps).1 ≡ ok tt
  unfolding release_cpu
  release_cpu_well id ps m quiet there = elim (Option-cases (get id ps.containers)) [
    | inl e ↦ rw (e, release_cpu) refl
    | inr (box, e) ↦ elim (Option-cases (get box.pool ps.pools)) [
      | inl f ↦ rw (e, release_cpu) (rw (f, release_cpu) refl)
      | inr (p, f) ↦
          let (pending, metrics) = forgotten id box ps in
          rw (e, release_cpu)
            (rw (f, release_cpu)
              (released_well box.pool (forget_container id box ps) m (pending ∙ quiet)
                (ap (λ (x : Metrics). x.metric) metrics ∙ there)))
    ]
  ]

  -- A container that is released is not in the pool set any more.
  pub released_gone :
      (id : String) (ps : PoolSet)
      → ps.pending_cfg ≡ none
      → get id (release_cpu id ps).0.containers ≡ none
  released_gone id ps quiet = elim (Option-cases (get id ps.containers)) [
    | inl e ↦ rw (release_cpu_unknown id ps e) e
    | inr (box, e) ↦ elim (Option-cases (get box.pool ps.pools)) [
      | inl f ↦
          rw (release_cpu_lost id box ps e f)
            (get-delete id id ps.containers ∙ rw (==-refl id) refl)
      | inr (p, f) ↦
          rw (release_cpu_known id box p ps quiet e f).1
            (get-delete id id ps.containers ∙ rw (==-refl id) refl)
    ]
  ]
