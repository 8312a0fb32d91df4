-- ===== src/Policy/Running.antt =====
-- cmd/cpu-pool-policy/pool-policy-plugin.go: a pool set that serves containers, with no
-- configuration pending, and that requests and releases leave it so.
use cpu_policy_plugins_for_k.Prelude.{
  ℕ, ◌/◌, ◌≡◌, refl, none, some, String, string_eq, arith, ap, ◌∙◌, inl, inr, Bool-cases,
  Option-cases,
}
use cpu_policy_plugins_for_k.Prelude.GoMap.{get, delete}
use cpu_policy_plugins_for_k.Prelude.Int.{ℤ, pos}
use cpu_policy_plugins_for_k.Prelude.Outcome.{ok}
use cpu_policy_plugins_for_k.Cpuset.{Cpusets}
use cpu_policy_plugins_for_k.Runtime.{GoRuntime}
use cpu_policy_plugins_for_k.Config.{default_pool, reserved_pool}
use cpu_policy_plugins_for_k.Allocator.Topology.{Online}
use cpu_policy_plugins_for_k.Pool.State.{Container, Pool, PoolSet, Host}
use cpu_policy_plugins_for_k.Pool.Allocation.{allocate_cpu, allocate_exclusive}
use cpu_policy_plugins_for_k.Pool.Release.{give_back, release_cpu}
use cpu_policy_plugins_for_k.Pool.Queries.{verify}
use cpu_policy_plugins_for_k.Pool.Told.{verified}
use cpu_policy_plugins_for_k.Pool.Books.{IsBalanced}
use cpu_policy_plugins_for_k.Pool.Requests.{
  Serviceable, allocate_cpu-IsBalanced, allocate_exclusive-IsBalanced,
}
use cpu_policy_plugins_for_k.Pool.Releases.{release_cpu-IsBalanced, release_cpu_known, forget_lost}
use cpu_policy_plugins_for_k.Pool.Conserved.{
  KeepsPools, KeepsPools-refl, KeepsPools-put, box-pinned, SameCpus-give_back,
}
use cpu_policy_plugins_for_k.Pool.Effects.{
  Effect, allocate_cpu-Effect, allocate_exclusive-Effect, Effect-KeepsPools,
}
use cpu_policy_plugins_for_k.Policy.Plugin.{wants_exclusive, request_cpus}

module _ ⦃c : Cpusets⦄ ⦃g : GoRuntime⦄ ⦃h : Host⦄ where
  open c use {CPUSet, contains}

  -- The books are right, no configuration is pending, the CPUs of the pools are online on a machine
  -- that the allocator knows, and the pools that must be there are.
  pub record Running (ps : PoolSet) : Type 0 where
    pub books : IsBalanced ps
    pub quiet : ps.pending_cfg ≡ none
    pub service : Serviceable ps
    pub given :
        (name : String) (p : Pool) → get name ps.pools ≡ some p → Online service.machine p.pinned
    pub sound : verify ps ≡ ok tt

  has_both :
      (ps : PoolSet) (d r : Pool)
      → get default_pool ps.pools ≡ some d
      → get reserved_pool ps.pools ≡ some r
      → verify ps ≡ ok tt
  unfolding verify
  has_both ps d r e f = ground (arith, e, f)

  pub Running-KeepsPools :
      (ps qs : PoolSet)
      → Running ps
      → IsBalanced qs
      → qs.pending_cfg ≡ ps.pending_cfg
      → KeepsPools ps.pools qs.pools
      → Running qs
  Running-KeepsPools ps qs v b same keeps =
      let (d, r, common, reserved, both) = verified ps v.sound in
      let (d', common', same_d) = keeps.kept default_pool d common in
      let (r', reserved', same_r) = keeps.kept reserved_pool r reserved in
      record {
        books = b;
        quiet = same ∙ v.quiet;
        service = record {
          machine = v.service.machine;
          discovered = v.service.discovered;
          well_formed = v.service.well_formed;
          online = λ name q at x has.
              let (p, known, cpus) = keeps.none_new name q at in
              elim (Bool-cases (contains p.shared x)) [
                | inl shared ↦ v.service.online name p known x shared
                | inr other ↦ v.given name p known x (ground (arith, cpus x, other, has))
              ];
        };
        given = λ name q at x has.
            let (p, known, cpus) = keeps.none_new name q at in
            elim (Bool-cases (contains p.shared x)) [
              | inl shared ↦ v.service.online name p known x shared
              | inr other ↦ v.given name p known x (ground (arith, cpus x, other, has))
            ];
        sound = has_both qs d' r' common' reserved';
      }

  -- A call that leaves the plugin running, with the pools that it had.
  abbrev pub Keeps : PoolSet → PoolSet → Type 0
  Keeps ps qs = Running qs × KeepsPools ps.pools qs.pools

  pub Keeps-refl : (ps : PoolSet) → Running ps → Keeps ps ps
  Keeps-refl ps v = (v, KeepsPools-refl ps.pools)

  Effect-Keeps :
      (id : String) (ps qs : PoolSet) → Running ps → IsBalanced qs → Effect id ps qs → Keeps ps qs
  Effect-Keeps id ps qs v b effect =
      let (keeps, same) = Effect-KeepsPools id ps qs effect in
      (Running-KeepsPools ps qs v b same keeps, keeps)

  -- The request that `AddContainer` makes for a new container.
  pub request_cpus-Keeps :
      (id pool : String) (n : ℕ) (lim : ℤ) (ps : PoolSet)
      → get id ps.containers ≡ none
      → Running ps
      → Keeps ps (request_cpus id pool (pos n) lim ps).0
  unfolding request_cpus
  request_cpus-Keeps id pool n lim ps fresh v = elim (Bool-cases (wants_exclusive (pos n) lim)) [
    | inl exclusive ↦
        rw (exclusive, request_cpus)
          (Effect-Keeps id ps (allocate_exclusive id pool (pos (n / 1000)) ps).0 v
            (allocate_exclusive-IsBalanced id pool (n / 1000) ps v.service fresh v.books)
            (allocate_exclusive-Effect id pool (n / 1000) ps v.service))
    | inr shared ↦
        rw (shared, request_cpus)
          (Effect-Keeps id ps (allocate_cpu id pool (pos n) ps).0 v
            (allocate_cpu-IsBalanced id pool (pos n) ps fresh v.books)
            (allocate_cpu-Effect id pool (pos n) ps))
  ]

  pub release_cpu_lost :
      (id : String) (box : Container) (ps : PoolSet)
      → get id ps.containers ≡ some box
      → get box.pool ps.pools ≡ none
      → (release_cpu id ps).0 ≡ record ps { containers = delete id ps.containers }
  unfolding release_cpu
  release_cpu_lost id box ps there lost =
      rw (there, release_cpu) (rw (lost, release_cpu) (forget_lost id box ps lost))

  pub release_cpu_unknown :
      (id : String) (ps : PoolSet) → get id ps.containers ≡ none → (release_cpu id ps).0 ≡ ps
  unfolding release_cpu
  release_cpu_unknown id ps unknown = rw (unknown, release_cpu) refl

  -- The release that `RemoveContainer` and `restoreState` make.
  pub release_cpu-Keeps : (id : String) (ps : PoolSet) → Running ps → Keeps ps (release_cpu id ps).0
  release_cpu-Keeps id ps v =
      let b = release_cpu-IsBalanced id ps v.quiet v.books in
      let qs = (release_cpu id ps).0 in
      let by : qs.pending_cfg ≡ ps.pending_cfg → KeepsPools ps.pools qs.pools → Keeps ps qs =
        λ same keeps. (Running-KeepsPools ps qs v b same keeps, keeps) in
      elim (Option-cases (get id ps.containers)) [
        | inl unknown ↦
            let same = release_cpu_unknown id ps unknown in
            by (ap (λ (r : PoolSet). r.pending_cfg) same) (rw same (KeepsPools-refl ps.pools))
        | inr (box, there) ↦ elim (Option-cases (get box.pool ps.pools)) [
          | inl lost ↦
              let same = release_cpu_lost id box ps there lost in
              by (ap (λ (r : PoolSet). r.pending_cfg) same)
                (rw (ap (λ (r : PoolSet). r.pools) same) (KeepsPools-refl ps.pools))
          | inr (p, known) ↦
              let same = release_cpu_known id box p ps v.quiet there known in
              by same.2 (
                rw same.0 (
                  KeepsPools-put box.pool p (give_back box p) ps.pools known
                    (SameCpus-give_back box p (box-pinned id box p ps there known v.books))))
        ]
      ]
