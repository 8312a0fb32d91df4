-- ===== src/Pool/Granted.antt =====
-- cmd/cpu-pool-policy/pool/pool.go: what a container is told about the CPUs that it was given.
use cpu_policy_plugins_for_k.Prelude.{
  ℕ, ◌<◌, ◌≤◌, ◌≡◌, refl, true, false, some, String, string_eq, ◌==◌, if◌then◌else◌, arith,
  Bool-cases, inl, inr, ◌∙◌, ==-refl,
}
use cpu_policy_plugins_for_k.Prelude.GoMap.{get, put, get-put}
use cpu_policy_plugins_for_k.Prelude.Int.{pos}
use cpu_policy_plugins_for_k.Prelude.Outcome.{ok, after}
use cpu_policy_plugins_for_k.Cpuset.{Cpusets, Subset}
use cpu_policy_plugins_for_k.Runtime.{GoRuntime}
use cpu_policy_plugins_for_k.Metrics.{ApiMetric, publish, update_pool}
use cpu_policy_plugins_for_k.Config.{reserved_pool, default_pool}
use cpu_policy_plugins_for_k.Allocator.{allocate_cpus}
use cpu_policy_plugins_for_k.Pool.State.{
  Container, Pool, PoolSet, Host, is_allowed_pool, milli_cpus,
}
use cpu_policy_plugins_for_k.Pool.Figures.{
  get_pool_metrics, cache_pool_metrics, publish_metrics, update_pool_metrics,
}
use cpu_policy_plugins_for_k.Pool.Allocation.{answer, pin_container, grant_cpus, allocate_exclusive}
use cpu_policy_plugins_for_k.Pool.Queries.{get_container_cpuset}
use cpu_policy_plugins_for_k.Pool.Books.{answered-SameBooks}
use cpu_policy_plugins_for_k.Pool.Requests.{Serviceable, served, take_cpus_enough}

module _ ⦃c : Cpusets⦄ ⦃g : GoRuntime⦄ where
  open c use {CPUSet, size, is_empty, union, is_empty_lem}

  pub cached_metric :
      (name : String) (ps : PoolSet)
      → (cache_pool_metrics name ps).metrics.metric ≡ ps.metrics.metric
  unfolding cache_pool_metrics update_pool
  cached_metric name ps = elim (Bool-cases ((get_pool_metrics name ps).0 == "")) [
    | inl e ↦ rw e refl
    | inr e ↦ rw e refl
  ]

  -- Publishing does not panic once there is a resource, and drops its error.
  published_well :
      (ps : PoolSet) (m : ApiMetric) → ps.metrics.metric ≡ some m → (publish_metrics ps).1 ≡ ok tt
  unfolding publish_metrics publish
  published_well ps m e = ground (arith, e)

  pub update_pool_metrics_well :
      (name : String) (ps : PoolSet) (m : ApiMetric)
      → ps.metrics.metric ≡ some m
      → (update_pool_metrics name true ps).1 ≡ ok tt
  unfolding update_pool_metrics
  update_pool_metrics_well name ps m e =
      published_well (cache_pool_metrics name ps) m (cached_metric name ps ∙ e)

  answered_well :
      (name : String) (ps : PoolSet) (m : ApiMetric) (v : CPUSet)
      → ps.metrics.metric ≡ some m
      → (after (update_pool_metrics name true ps) (λ s done. answer s v)).1 ≡ ok v
  answered_well name ps m v e = rw (update_pool_metrics_well name ps m e) refl

  -- The state that a granted request is published in.
  abbrev pub pinned_state : String → String → CPUSet → CPUSet → Pool → PoolSet → PoolSet
  pinned_state id name result rest p ps = pin_container id name result (record ps {
    pools = put name (record p { shared = rest; pinned = union p.pinned result }) ps.pools;
  })

  module _ ⦃h : Host⦄ where
    granted :
        (id pool : String) (n : ℕ) (p : Pool) (ps : PoolSet) (result : CPUSet)
        → (pool == reserved_pool) ≡ false
        → is_allowed_pool (if pool == "" then default_pool else pool) ≡ ok tt
        → get (if pool == "" then default_pool else pool) ps.pools ≡ some p
        → (allocate_cpus h.allocator_system p.shared (pos n)).1 ≡ ok result
        → allocate_exclusive id pool (pos n) ps
          ≡ after
              (update_pool_metrics (if pool == "" then default_pool else pool) true (
                pinned_state id
                  (if pool == "" then default_pool else pool)
                  result
                  (allocate_cpus h.allocator_system p.shared (pos n)).0
                  p
                  ps))
              (λ s done. answer s result)
    unfolding allocate_exclusive grant_cpus
    granted id pool n p ps result other fine known out =
        rw (other, fine, known, allocate_exclusive) (rw (take_cpus_enough n p result out) refl)

    told :
        (id : String) (qs : PoolSet) (box : Container)
        → get id qs.containers ≡ some box
        → is_empty box.cpus ≡ false
        → get_container_cpuset id qs ≡ ok (box.cpus, true)
    unfolding get_container_cpuset
    told id qs box there some_cpus = ground (arith, there, some_cpus)

    -- A request for one or more exclusive CPUs of a pool that serves requests, is not the reserved
    -- pool and shares enough is answered with that many CPUs of the pool, and from then on the
    -- container is told to run on exactly those. The figures have a resource on the server, the
    -- allocator knows a well-formed machine, and the pools share only CPUs that are online.
    pub allocate_exclusive_grants :
        (id pool : String) (n : ℕ) (p : Pool) (ps : PoolSet) (m : ApiMetric)
        → Serviceable ps
        → (pool == reserved_pool) ≡ false
        → is_allowed_pool (if pool == "" then default_pool else pool) ≡ ok tt
        → get (if pool == "" then default_pool else pool) ps.pools ≡ some p
        → 0 < n
        → n ≤ size p.shared
        → ps.metrics.metric ≡ some m
        → (cpus : CPUSet) × ((allocate_exclusive id pool (pos n) ps).1 ≡ ok cpus)
          × (size cpus ≡ n)
          × Subset cpus p.shared
          × (get_container_cpuset id (allocate_exclusive id pool (pos n) ps).0 ≡ ok (cpus, true))
    unfolding pin_container
    allocate_exclusive_grants id pool n p ps m v other fine known more enough there =
        let name = if pool == "" then default_pool else pool in
        let (result, out, sized, inside, left) = served n name p ps v known enough in
        let rest = (allocate_cpus h.allocator_system p.shared (pos n)).0 in
        let state = pinned_state id name result rest p ps in
        let box : Container = record {
          id = id;
          pool = name;
          cpus = result;
          req = milli_cpus (pos (size result));
        } in
        let same = answered-SameBooks name state result in
        let whole = granted id pool n p ps result other fine known out in
        let at : get id
              (after (update_pool_metrics name true state) (λ s done. answer s result)).0.containers
            ≡ some box =
          rw same.1 (get-put id id box ps.containers ∙ ground (arith, ==-refl id)) in
        (
          result,
          rw whole (answered_well name state m result there),
          sized,
          inside,
          rw whole (told id _ box at (ground (arith, is_empty_lem result))),
        )
