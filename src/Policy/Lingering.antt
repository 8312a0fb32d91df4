-- ===== src/Policy/Lingering.antt =====
-- cmd/cpu-pool-policy/pool-policy-plugin.go: `restoreState` releases the containers that went away
-- while the plugin was not there, and no others.
use cpu_policy_plugins_for_k.Prelude.{
  ◌≡◌, refl, true, false, Option, none, some, List, [], ◌∷◌, String, string_eq, ◌==◌, if◌then◌else◌,
  arith, sym, ◌∙◌, ap, inl, inr, Bool-cases, Option-cases, elem,
}
use cpu_policy_plugins_for_k.Prelude.GoMap.{get, keys, get-delete, get-none_of_absent}
use cpu_policy_plugins_for_k.Prelude.Outcome.{ok}
use cpu_policy_plugins_for_k.Cpuset.{Cpusets}
use cpu_policy_plugins_for_k.Runtime.{GoRuntime, elem-ranged}
use cpu_policy_plugins_for_k.Metrics.{ApiMetric, Metrics, publish}
use cpu_policy_plugins_for_k.Kube.{Quantities}
use cpu_policy_plugins_for_k.Pool.State.{Container, PoolSet, Host}
use cpu_policy_plugins_for_k.Pool.Figures.{update_pool_metrics, publish_metrics, cache_pool_metrics}
use cpu_policy_plugins_for_k.Pool.Reconcile.{reconcile_config, ignoring_error}
use cpu_policy_plugins_for_k.Pool.Release.{forget_container, release_cpu}
use cpu_policy_plugins_for_k.Pool.Assignments.{get_pool_assignments}
use cpu_policy_plugins_for_k.Pool.Checkpoint.{Json}
use cpu_policy_plugins_for_k.Pool.Restored.{assign-known}
use cpu_policy_plugins_for_k.Pool.Told.{assign_total}
use cpu_policy_plugins_for_k.Pool.Books.{update_pool_metrics-SameBooks}
use cpu_policy_plugins_for_k.Pool.Releases.{reconcile_config_quiet, release_cpu_known}
use cpu_policy_plugins_for_k.Pool.Granted.{update_pool_metrics_well, cached_metric}
use cpu_policy_plugins_for_k.Policy.Store.{Stub}
use cpu_policy_plugins_for_k.Policy.Restore.{release_lingering, drop_lingering}
use cpu_policy_plugins_for_k.Policy.Running.{
  Running, release_cpu-Keeps, release_cpu_lost, release_cpu_unknown,
}
use cpu_policy_plugins_for_k.Policy.Releasing.{release_cpu_well, forgotten}

module _ ⦃c : Cpusets⦄ ⦃g : GoRuntime⦄ ⦃h : Host⦄ where
  open c use {CPUSet}
  open g use {range_names}

  -- The figures of a pool set have a resource on the server.
  abbrev pub HasResource : PoolSet → Type 0
  HasResource ps = (m : ApiMetric) × (ps.metrics.metric ≡ some m)

  publish_resource :
      (m : Metrics) (r : ApiMetric)
      → m.metric ≡ some r
      → (n : ApiMetric) × ((publish m).0.metric ≡ some n)
  unfolding publish
  publish_resource m r e = elim (Option-cases (publish m).0.metric) [
    | inl lost ↦ absurd (ground (arith, e, lost))
    | inr found ↦ found
  ]

  published-HasResource :
      (name : String) (ps : PoolSet)
      → HasResource ps
      → HasResource (update_pool_metrics name true ps).0
  unfolding update_pool_metrics publish_metrics
  published-HasResource name ps (m, e) =
      publish_resource (cache_pool_metrics name ps).metrics m (cached_metric name ps ∙ e)

  measured-HasResource :
      (name : String) (qs : PoolSet)
      → qs.pending_cfg ≡ none
      → HasResource qs
      → HasResource
          (ignoring_error
            (update_pool_metrics name true qs)
            λ measured. ignoring_error (reconcile_config measured) λ r. (r, ok tt)).0
  unfolding ignoring_error
  measured-HasResource name qs quiet (m, there) =
      let measured = update_pool_metrics name true qs in
      let same = update_pool_metrics-SameBooks name true qs in
      rw (update_pool_metrics_well name qs m there, ignoring_error)
        (rw (reconcile_config_quiet measured.0 (same.2 ∙ quiet))
          (published-HasResource name qs (m, there)))

  release_cpu-HasResource :
      (id : String) (ps : PoolSet)
      → ps.pending_cfg ≡ none
      → HasResource ps
      → HasResource (release_cpu id ps).0
  unfolding release_cpu
  release_cpu-HasResource id ps quiet (m, there) = elim (Option-cases (get id ps.containers)) [
    | inl e ↦ rw (e, release_cpu) (m, there)
    | inr (box, e) ↦
        let (pending, metrics) = forgotten id box ps in
        let still : HasResource (forget_container id box ps) =
          (m, ap (λ (x : Metrics). x.metric) metrics ∙ there) in
        elim (Option-cases (get box.pool ps.pools)) [
          | inl f ↦ rw (e, release_cpu) (rw (f, release_cpu) still)
          | inr (p, f) ↦
              rw (e, release_cpu)
                (rw (f, release_cpu)
                  (measured-HasResource box.pool (forget_container id box ps) (pending ∙ quiet)
                    still))
        ]
  ]

  -- The containers after a release: all but the one.
  release_cpu-get :
      (i id : String) (ps : PoolSet)
      → ps.pending_cfg ≡ none
      → get i (release_cpu id ps).0.containers ≡ (if id == i then none else get i ps.containers)
  release_cpu-get i id ps quiet = elim (Option-cases (get id ps.containers)) [
    | inl e ↦ rw (release_cpu_unknown id ps e) (ground (arith, string_eq.equal_iff id i, e))
    | inr (box, e) ↦ elim (Option-cases (get box.pool ps.pools)) [
      | inl f ↦ rw (release_cpu_lost id box ps e f) (get-delete i id ps.containers)
      | inr (p, f) ↦ rw (release_cpu_known id box p ps quiet e f).1 (get-delete i id ps.containers)
    ]
  ]

  module _ ⦃q : Quantities⦄ ⦃j : Json⦄ ⦃st : Stub⦄ where
    open st use {State, get_cpuset}

    -- A container that the kubelet still has.
    abbrev pub surviving : State → String → Option Container → Option Container
    surviving s id found = elim (get_cpuset id s) [ none ↦ none | some cset ↦ found ]

    -- The pool set after the loop over some of its containers.
    record Released (ns : List String) (s : State) (ps qs : PoolSet) : Type 0 where
      running : Running qs
      resource : HasResource qs
      boxes :
          (id : String)
          → get id qs.containers
            ≡ (if elem id ns then surviving s id (get id ps.containers) else get id ps.containers)

    skip-Released :
        (id : String) (rest : List String) (s : State) (ps qs : PoolSet) (w : CPUSet)
        → get_cpuset id s ≡ some w
        → Released rest s ps qs
        → Released (id ∷ rest) s ps qs
    skip-Released id rest s ps qs w known r = record {
      running = r.running;
      resource = r.resource;
      boxes = λ i. elim (Bool-cases (id == i)) [
        | inl same ↦
            let is_i = (string_eq.equal_iff id i).0 same in
            ground (arith, r.boxes i, known, is_i, same)
        | inr other ↦ rw other (r.boxes i)
      ];
    }

    drop-Released :
        (id : String) (rest : List String) (s : State) (ps qs : PoolSet)
        → ps.pending_cfg ≡ none
        → get_cpuset id s ≡ none
        → Released rest s (release_cpu id ps).0 qs
        → Released (id ∷ rest) s ps qs
    drop-Released id rest s ps qs quiet lost r = record {
      running = r.running;
      resource = r.resource;
      boxes = λ i. elim (Bool-cases (id == i)) [
        | inl same ↦
            let is_i = (string_eq.equal_iff id i).0 same in
            let gone : get_cpuset i s ≡ none = rw (sym is_i) lost in
            ground (arith, r.boxes i, release_cpu-get i id ps quiet, gone, same)
        | inr other ↦ rw other (r.boxes i ∙ rw (release_cpu-get i id ps quiet) (rw other refl))
      ];
    }

    release_lingering-Released :
        (ns : List String) (s : State) (ps : PoolSet)
        → Running ps
        → HasResource ps
        → ((release_lingering ns s ps).1 ≡ ok tt) × Released ns s ps (release_lingering ns s ps).0
    unfolding release_lingering
    release_lingering-Released [] s ps v there =
        (refl, record { running = v; resource = there; boxes = λ id. refl })
    release_lingering-Released (id ∷ rest) s ps v there = elim (Option-cases (get_cpuset id s)) [
      | inr (w, known) ↦
          let (done, r) = release_lingering-Released rest s ps v there in
          rw (known, release_lingering) (done, skip-Released id rest s ps _ w known r)
      | inl lost ↦
          let (still, keeps) = release_cpu-Keeps id ps v in
          let (m, on_server) = there in
          let (done, r) =
            release_lingering-Released rest s (release_cpu id ps).0 still
              (release_cpu-HasResource id ps v.quiet there) in
          rw (lost, release_lingering)
            (rw (release_cpu_well id ps m v.quiet on_server)
              (done, drop-Released id rest s ps _ v.quiet lost r))
    ]

    -- After a restart exactly the containers are released that the kubelet does not have: the others
    -- are still there, and the plugin runs. It ran before, and its figures have a resource on the
    -- server.
    pub drop_lingering_lem :
        (s : State) (ps : PoolSet)
        → Running ps
        → HasResource ps
        → ((drop_lingering s ps).1 ≡ ok tt)
          × Running (drop_lingering s ps).0
          × ((id : String)
              → get id (drop_lingering s ps).0.containers ≡ surviving s id (get id ps.containers))
    unfolding drop_lingering get_pool_assignments
    drop_lingering_lem s ps v there =
        let (m, made) = assign_total ps ps.containers v.sound in
        let names = range_names "restoreState" (keys m) in
        let (done, r) = release_lingering-Released names s ps v there in
        rw (made, drop_lingering)
          (
            done,
            r.running,
            λ id. elim (Bool-cases (elem id names)) [
              | inl listed ↦ r.boxes id ∙ rw listed refl
              | inr absent ↦
                  let missing : get id m ≡ none =
                    get-none_of_absent id m
                      (ground (arith, elem-ranged "restoreState" id (keys m), absent)) in
                  let unknown : get id ps.containers ≡ none =
                    elim (Option-cases (get id ps.containers)) [
                      | inl e ↦ e
                      | inr (box, e) ↦
                          let (cpus, mine, at) =
                            assign-known false ps ps.containers m id box made e in
                          absurd (ground (arith, missing, at))
                    ] in
                  r.boxes id
                  ∙ rw absent (elim (Option-cases (get_cpuset id s)) [
                    | inl e ↦ rw (e, surviving) unknown
                    | inr (w, e) ↦ rw (e, surviving) refl
                  ])
            ],
          )
