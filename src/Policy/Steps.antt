-- ===== src/Policy/Steps.antt =====
-- cmd/cpu-pool-policy/pool-policy-plugin.go: the plugin at work under one configuration. Containers
-- come and go in any order; each call is a step, since the plugin's mutex is held for all of it. The
-- watcher's callback, which configures the pools anew, is not a step.
use cpu_policy_plugins_for_k.Prelude.{
  ℕ, ◌≡◌, refl, true, false, none, some, String, string_eq, arith, inl, inr,
}
use cpu_policy_plugins_for_k.Prelude.GoMap.{get}
use cpu_policy_plugins_for_k.Prelude.Int.{pos}
use cpu_policy_plugins_for_k.Prelude.Outcome.{Outcome, ok, err, panic, Outcome-cases}
use cpu_policy_plugins_for_k.Errors.{Error}
use cpu_policy_plugins_for_k.Cpuset.{Cpusets}
use cpu_policy_plugins_for_k.Runtime.{GoRuntime}
use cpu_policy_plugins_for_k.Kube.{Quantities, KubeContainer, KubePod}
use cpu_policy_plugins_for_k.Pool.State.{PoolSet, Host}
use cpu_policy_plugins_for_k.Pool.Release.{release_cpu}
use cpu_policy_plugins_for_k.Pool.Queries.{get_container_cpuset}
use cpu_policy_plugins_for_k.Pool.Resources.{get_container_pool_resources}
use cpu_policy_plugins_for_k.Pool.Checkpoint.{Json}
use cpu_policy_plugins_for_k.Pool.Conserved.{KeepsPools-trans}
use cpu_policy_plugins_for_k.Policy.Store.{Stub}
use cpu_policy_plugins_for_k.Policy.Update.{update_state}
use cpu_policy_plugins_for_k.Policy.Plugin.{
  request_cpus, update_ignored, finish_request, add_container, finish_release, remove_container,
}
use cpu_policy_plugins_for_k.Policy.Running.{
  Running, Keeps, Keeps-refl, request_cpus-Keeps, release_cpu-Keeps,
}

module _ ⦃c : Cpusets⦄ ⦃g : GoRuntime⦄ ⦃h : Host⦄ ⦃q : Quantities⦄ ⦃j : Json⦄ ⦃st : Stub⦄ where
  open c use {CPUSet, contains, is_empty, size}
  open st use {State, forget}

  -- A request is a number of thousandths.
  abbrev pub AsksFor : KubePod → KubeContainer → ℕ → Type 0
  AsksFor pod container n = (get_container_pool_resources pod container).1 ≡ pos n

  pub data Step (s : PoolSet × State) (t : PoolSet × State) : Type 0 where
    added :
        (pod : KubePod) (container : KubeContainer) (id : String) (n : ℕ)
        → AsksFor pod container n
        → t ≡ (add_container pod container id s.0 s.1).0
        → Step s t
    removed : (id : String) → t ≡ (remove_container id s.0 s.1).0 → Step s t

  pub data Reach (s : PoolSet × State) : PoolSet × State → Type 0 where
    here : Reach s s
    next : {t u : PoolSet × State} → Reach s t → Step t u → Reach s u

  update_ignored-pools : (ps : PoolSet) (s : State) → (update_ignored ps s).0.0 ≡ ps
  unfolding update_ignored
  update_ignored-pools ps s = elim (Outcome-cases (update_state (some ps) s).1) [
    | inl (done, e) ↦ rw (e, update_ignored) refl
    | inr (inl (f, e)) ↦ rw (e, update_ignored) refl
    | inr (inr e) ↦ rw (e, update_ignored) refl
  ]

  finish_request-pools :
      (s : State) (x : PoolSet × Outcome Error CPUSet) → (finish_request s x).0.0 ≡ x.0
  unfolding finish_request
  finish_request-pools s (ps, ok cset) = update_ignored-pools ps s
  finish_request-pools s (ps, err e) = refl
  finish_request-pools s (ps, panic) = refl

  finish_release-pools :
      (id : String) (s : State) (x : PoolSet × Outcome Error (Unit {0}))
      → (finish_release id s x).0.0 ≡ x.0
  unfolding finish_release
  finish_release-pools id s (ps, ok done) = update_ignored-pools ps (forget id s)
  finish_release-pools id s (ps, err e) = update_ignored-pools ps (forget id s)
  finish_release-pools id s (ps, panic) = refl

  -- A container that is not known has no entry.
  unknown_box :
      (id : String) (ps : PoolSet) (cset : CPUSet)
      → get_container_cpuset id ps ≡ ok (cset, false)
      → get id ps.containers ≡ none
  unfolding get_container_cpuset
  unknown_box id ps cset e = ground arith

  pub add_container-Keeps :
      (pod : KubePod) (container : KubeContainer) (id : String) (n : ℕ) (ps : PoolSet) (s : State)
      → AsksFor pod container n
      → Running ps
      → Keeps ps (add_container pod container id ps s).0.0
  unfolding add_container
  add_container-Keeps pod container id n ps s asks v =
      let (pool, req, lim) = get_container_pool_resources pod container in
      elim (Outcome-cases (get_container_cpuset id ps)) [
        | inr (inl (f, e)) ↦ rw (e, add_container) (Keeps-refl ps v)
        | inr (inr e) ↦ rw (e, add_container) (Keeps-refl ps v)
        | inl ((cset, true), e) ↦ rw (e, add_container) (Keeps-refl ps v)
        | inl ((cset, false), e) ↦
            rw (e, add_container)
              (rw (finish_request-pools s (request_cpus id pool req lim ps))
                (rw asks (request_cpus-Keeps id pool n lim ps (unknown_box id ps cset e) v)))
      ]

  pub remove_container-Keeps :
      (id : String) (ps : PoolSet) (s : State)
      → Running ps
      → Keeps ps (remove_container id ps s).0.0
  unfolding remove_container
  remove_container-Keeps id ps s v =
      rw (finish_release-pools id s (release_cpu id ps)) (release_cpu-Keeps id ps v)

  Step-Keeps : (s t : PoolSet × State) → Running s.0 → Step s t → Keeps s.0 t.0
  Step-Keeps s t v (added pod container id n asks is) =
      rw is (add_container-Keeps pod container id n s.0 s.1 asks v)
  Step-Keeps s t v (removed id is) = rw is (remove_container-Keeps id s.0 s.1 v)

  pub Reach-Keeps : (s t : PoolSet × State) → Running s.0 → Reach s t → Keeps s.0 t.0
  Reach-Keeps s _ v here = Keeps-refl s.0 v
  Reach-Keeps s u v (next {t} run step) =
      let (running, keeps) = Reach-Keeps s t v run in
      let (further, kept) = Step-Keeps t u running step in
      (further, KeepsPools-trans s.0.pools t.0.pools u.0.pools keeps kept)
