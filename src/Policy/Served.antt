-- ===== src/Policy/Served.antt =====
-- cmd/cpu-pool-policy/pool-policy-plugin.go: `AddContainer` and `RemoveContainer` from the request
-- to what the kubelet knows.
use cpu_policy_plugins_for_k.Prelude.{
  ℕ, ◌*◌, ◌/◌, ◌<◌, ◌≤◌, ◌≡◌, refl, true, false, none, some, [], String, string_eq, ◌==◌,
  if◌then◌else◌, arith, ◌∙◌, ap, inl, inr, Option-cases,
}
use cpu_policy_plugins_for_k.Prelude.GoMap.{get}
use cpu_policy_plugins_for_k.Prelude.Int.{ℤ, pos, int_eq}
use cpu_policy_plugins_for_k.Prelude.Outcome.{Outcome, ok, err, panic}
use cpu_policy_plugins_for_k.Errors.{Error}
use cpu_policy_plugins_for_k.Cpuset.{Cpusets, Subset}
use cpu_policy_plugins_for_k.Runtime.{GoRuntime}
use cpu_policy_plugins_for_k.Metrics.{ApiMetric}
use cpu_policy_plugins_for_k.Kube.{Quantities, KubeContainer, KubePod}
use cpu_policy_plugins_for_k.Config.{default_pool, reserved_pool}
use cpu_policy_plugins_for_k.Pool.State.{Container, Pool, PoolSet, Host, is_allowed_pool}
use cpu_policy_plugins_for_k.Pool.Allocation.{allocate_exclusive}
use cpu_policy_plugins_for_k.Pool.Release.{release_cpu}
use cpu_policy_plugins_for_k.Pool.Queries.{get_container_cpuset}
use cpu_policy_plugins_for_k.Pool.Resources.{get_container_pool_resources}
use cpu_policy_plugins_for_k.Pool.Checkpoint.{Json, marshal_json}
use cpu_policy_plugins_for_k.Pool.Granted.{allocate_exclusive_grants}
use cpu_policy_plugins_for_k.Policy.Releasing.{release_cpu_well, released_gone}
use cpu_policy_plugins_for_k.Policy.Store.{Stub}
use cpu_policy_plugins_for_k.Policy.Update.{update_state, update_pools_state}
use cpu_policy_plugins_for_k.Policy.Told.{KnownWith, update_pools_state-Informed}
use cpu_policy_plugins_for_k.Policy.Plugin.{
  wants_exclusive, request_cpus, update_ignored, finish_request, add_container, finish_release,
  remove_container,
}
use cpu_policy_plugins_for_k.Policy.Running.{Running, request_cpus-Keeps, release_cpu-Keeps}

module _ ⦃c : Cpusets⦄ ⦃g : GoRuntime⦄ ⦃h : Host⦄ ⦃q : Quantities⦄ ⦃j : Json⦄ ⦃st : Stub⦄ where
  open c use {CPUSet, size, new_cpuset}
  open j use {Document}
  open st use {State, get_cpuset, forget, get_cpuset-forget}

  whole_request : (n : ℕ) → 0 < n → wants_exclusive (pos (1000 * n)) (pos (1000 * n)) ≡ true
  unfolding wants_exclusive
  whole_request n more = ground arith

  exclusive_call :
      (id pool : String) (n : ℕ) (ps : PoolSet)
      → 0 < n
      → request_cpus id pool (pos (1000 * n)) (pos (1000 * n)) ps
        ≡ allocate_exclusive id pool (pos n) ps
  unfolding request_cpus
  exclusive_call id pool n ps more =
      let back : 1000 * n / 1000 ≡ n = omega arith in
      rw (whole_request n more) (ap (λ (k : ℕ). allocate_exclusive id pool (pos k) ps) back)

  not_there :
      (id : String) (ps : PoolSet)
      → get id ps.containers ≡ none
      → get_container_cpuset id ps ≡ ok (new_cpuset [], false)
  unfolding get_container_cpuset
  not_there id ps e = ground (arith, e)

  is_there :
      (id : String) (ps : PoolSet) (cpus : CPUSet)
      → get_container_cpuset id ps ≡ ok (cpus, true)
      → (box : Container) × (get id ps.containers ≡ some box)
  is_there id ps cpus e = elim (Option-cases (get id ps.containers)) [
    | inl lost ↦ absurd (ground (arith, e, not_there id ps lost))
    | inr found ↦ found
  ]

  update_ignored_well :
      (ps : PoolSet) (s : State)
      → (update_pools_state ps s).1 ≡ ok tt
      → update_ignored ps s ≡ ((ps, (update_pools_state ps s).0), ok tt)
  unfolding update_ignored update_state
  update_ignored_well ps s e = rw (e, update_ignored) refl

  finish_request_well :
      (s : State) (x : PoolSet × Outcome Error CPUSet) (cpus : CPUSet)
      → x.1 ≡ ok cpus
      → finish_request s x ≡ update_ignored x.0 s
  unfolding finish_request
  finish_request_well s (ps, ok w) cpus e = refl
  finish_request_well s (ps, err f) cpus e = absurd (cc (e))
  finish_request_well s (ps, panic) cpus e = absurd (cc (e))

  add_container_new :
      (pod : KubePod) (container : KubeContainer) (id pool : String) (req lim : ℤ) (ps : PoolSet)
      (s : State)
      → get_container_pool_resources pod container ≡ (pool, req, lim)
      → get id ps.containers ≡ none
      → add_container pod container id ps s ≡ finish_request s (request_cpus id pool req lim ps)
  unfolding add_container
  add_container_new pod container id pool req lim ps s asks fresh =
      rw (not_there id ps fresh, add_container) (rw asks refl)

  -- A new container that asks for whole CPUs only, as many as the limit, of a pool that serves
  -- requests, is not the reserved pool and shares enough, is served: `AddContainer` succeeds, and the
  -- kubelet is told to run it on exactly that many CPUs, which the pool shared until then. The
  -- plugin runs, the figures have a resource on the server, and checkpoints can be written.
  pub add_container_serves :
      (pod : KubePod) (container : KubeContainer) (id pool : String) (n : ℕ) (p : Pool)
      (ps : PoolSet) (s : State) (m : ApiMetric)
      → Running ps
      → get_container_pool_resources pod container ≡ (pool, pos (1000 * n), pos (1000 * n))
      → get id ps.containers ≡ none
      → (pool == reserved_pool) ≡ false
      → is_allowed_pool (if pool == "" then default_pool else pool) ≡ ok tt
      → get (if pool == "" then default_pool else pool) ps.pools ≡ some p
      → 0 < n
      → n ≤ size p.shared
      → ps.metrics.metric ≡ some m
      → ((qs : PoolSet) → (doc : Document) × (marshal_json qs ≡ ok doc))
      → (cpus : CPUSet) × ((add_container pod container id ps s).1 ≡ ok tt)
        × (size cpus ≡ n)
        × Subset cpus p.shared
        × KnownWith id cpus (add_container pod container id ps s).0.1
  add_container_serves pod container id pool n p ps s m v asks fresh other fine known more enough
        there writes =
      let (cpus, out, sized, inside, told) =
        allocate_exclusive_grants id pool n p ps m v.service other fine known more enough there in
      let qs = (allocate_exclusive id pool (pos n) ps).0 in
      let call = exclusive_call id pool n ps more in
      let (running, keeps) = request_cpus-Keeps id pool (1000 * n) (pos (1000 * n)) ps fresh v in
      let still : Running qs =
        rw (← ap (λ (x : PoolSet × Outcome Error CPUSet). x.0) call) running in
      let (doc, written) = writes qs in
      let (updated, informed) = update_pools_state-Informed qs s doc still.sound written in
      let (box, at) = is_there id qs cpus told in
      let whole : add_container pod container id ps s ≡ ((qs, (update_pools_state qs s).0), ok tt) =
        add_container_new pod container id pool (pos (1000 * n)) (pos (1000 * n)) ps s asks fresh
        ∙ ap (finish_request s) call
        ∙ finish_request_well s (allocate_exclusive id pool (pos n) ps) cpus out
        ∙ update_ignored_well qs s updated in
      rw whole (cpus, refl, sized, inside, informed.boxes_known id box cpus at told)

  finish_release_well :
      (id : String) (s : State) (x : PoolSet × Outcome Error (Unit {0}))
      → x.1 ≡ ok tt
      → finish_release id s x ≡ update_ignored x.0 (forget id s)
  unfolding finish_release
  finish_release_well id s (ps, ok w) e = refl
  finish_release_well id s (ps, err f) e = absurd (cc (e))
  finish_release_well id s (ps, panic) e = absurd (cc (e))

  -- `RemoveContainer` succeeds for every container, known or not: afterwards neither the pool set
  -- nor the kubelet's state has the container, and the plugin runs. The plugin ran before, the
  -- figures have a resource on the server, and checkpoints can be written.
  pub remove_container_forgets :
      (id : String) (ps : PoolSet) (s : State) (m : ApiMetric)
      → Running ps
      → ps.metrics.metric ≡ some m
      → ((qs : PoolSet) → (doc : Document) × (marshal_json qs ≡ ok doc))
      → ((remove_container id ps s).1 ≡ ok tt)
        × (get id (remove_container id ps s).0.0.containers ≡ none)
        × (get_cpuset id (remove_container id ps s).0.1 ≡ none)
        × Running (remove_container id ps s).0.0
  unfolding remove_container
  remove_container_forgets id ps s m v there writes =
      let qs = (release_cpu id ps).0 in
      let (still, keeps) = release_cpu-Keeps id ps v in
      let (doc, written) = writes qs in
      let (updated, informed) =
        update_pools_state-Informed qs (forget id s) doc still.sound written in
      let gone = released_gone id ps v.quiet in
      let whole : remove_container id ps s
          ≡ ((qs, (update_pools_state qs (forget id s)).0), ok tt) =
        finish_release_well id s (release_cpu id ps) (release_cpu_well id ps m v.quiet there)
        ∙ update_ignored_well qs (forget id s) updated in
      rw whole (refl, gone, informed.others_known id gone ∙ get_cpuset-forget id s, still)
