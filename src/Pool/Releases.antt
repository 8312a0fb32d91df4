-- ===== src/Pool/Releases.antt =====
-- cmd/cpu-pool-policy/pool/pool.go: `ReleaseCPU` keeps the books of a pool set.
use cpu_policy_plugins_for_k.Prelude.{
  ◌≡◌, refl, true, false, none, some, String, string_eq, arith, Bool-cases, inl, inr, ◌∙◌, ==-refl,
  Option-cases,
}
use cpu_policy_plugins_for_k.Prelude.GoMap.{get, put, delete}
use cpu_policy_plugins_for_k.Prelude.Int.{ℤ, bits64-lt, bits64-sub64}
use cpu_policy_plugins_for_k.Prelude.Outcome.{ok, Outcome-cases}
use cpu_policy_plugins_for_k.Cpuset.{Cpusets, none_in_empty}
use cpu_policy_plugins_for_k.Runtime.{GoRuntime}
use cpu_policy_plugins_for_k.Pool.State.{Container, Pool, PoolSet, Host}
use cpu_policy_plugins_for_k.Pool.Figures.{update_pool_metrics}
use cpu_policy_plugins_for_k.Pool.Reconcile.{reconcile_config, ignoring_error}
use cpu_policy_plugins_for_k.Pool.Release.{give_back, forget_container, release_cpu}
use cpu_policy_plugins_for_k.Pool.Balance.{Balanced, Balanced-drop, Balanced-forget}
use cpu_policy_plugins_for_k.Pool.Books.{
  SameBooks, IsBalanced, IsBalanced-SameBooks, update_pool_metrics-SameBooks,
}

module _ ⦃c : Cpusets⦄ where
  open c use {
    CPUSet, contains, is_empty, new_cpuset, union, difference, contains-new, contains-union,
    contains-difference, is_empty_lem, size,
  }

  module _ ⦃g : GoRuntime⦄ ⦃h : Host⦄ where
    -- `reconcileConfig` has nothing to do while no configuration is pending.
    pub reconcile_config_quiet :
        (ps : PoolSet) → ps.pending_cfg ≡ none → reconcile_config ps ≡ (ps, ok tt)
    unfolding reconcile_config
    reconcile_config_quiet ps quiet = ground (arith, quiet)

    settled :
        (ps : PoolSet)
        → ps.pending_cfg ≡ none
        → (ignoring_error (reconcile_config ps) (λ s. (s, ok tt))).0 ≡ ps
    unfolding ignoring_error
    settled ps quiet = rw (reconcile_config_quiet ps quiet) refl

    -- What is left of a release once the figures of the pool are out.
    released-SameBooks :
        (name : String) (qs : PoolSet)
        → qs.pending_cfg ≡ none
        → SameBooks
            (ignoring_error
              (update_pool_metrics name true qs)
              λ measured. ignoring_error (reconcile_config measured) λ s. (s, ok tt)).0
            qs
    unfolding ignoring_error
    released-SameBooks name qs quiet =
        let m = update_pool_metrics name true qs in
        let same = update_pool_metrics-SameBooks name true qs in
        elim (Outcome-cases m.1) [
          | inl (done, e) ↦ rw (e, ignoring_error) (rw (settled m.0 (same.2 ∙ quiet)) same)
          | inr (inl (f, e)) ↦ rw (e, ignoring_error) (rw (settled m.0 (same.2 ∙ quiet)) same)
          | inr (inr e) ↦ rw (e, ignoring_error) same
        ]

    give_back-IsBalanced :
        (id : String) (box : Container) (p : Pool) (ps : PoolSet)
        → get id ps.containers ≡ some box
        → get box.pool ps.pools ≡ some p
        → IsBalanced ps
        → Balanced (put box.pool (give_back box p) ps.pools) (delete id ps.containers)
    unfolding give_back
    give_back-IsBalanced id box p ps there known b = elim (Bool-cases (is_empty box.cpus)) [
      | inl e ↦
          let none_of : (x : ℤ) → contains box.cpus x ≡ false = none_in_empty box.cpus e in
          Balanced-drop b id box.pool p (give_back box p) box there known refl
            (λ x. rw (e, give_back) (ground (arith, none_of x)))
            (λ x. rw (e, give_back) (ground (arith, none_of x)))
            (rw (e, give_back) (ground (arith, bits64-sub64 p.used box.req, ==-refl box.pool)))
      | inr e ↦
          Balanced-drop b id box.pool p (give_back box p) box there known refl
            (λ x. rw (e, give_back) (contains-union p.shared box.cpus x))
            (λ x. rw (e, give_back) (contains-difference p.pinned box.cpus x))
            (rw (e, give_back) (ground (arith, bits64-lt p.used)))
    ]

    pub forget_lost :
        (id : String) (box : Container) (ps : PoolSet)
        → get box.pool ps.pools ≡ none
        → forget_container id box ps ≡ record ps { containers = delete id ps.containers }
    unfolding forget_container
    forget_lost id box ps lost = rw (lost, forget_container) refl

    forget_known :
        (id : String) (box : Container) (p : Pool) (ps : PoolSet)
        → get box.pool ps.pools ≡ some p
        → forget_container id box ps ≡ record ps {
          containers = delete id ps.containers;
          pools = put box.pool (give_back box p) ps.pools;
        }
    unfolding forget_container
    forget_known id box p ps known = rw (known, forget_container) refl

    -- The books after the release of a container whose pool is there.
    pub release_cpu_known :
        (id : String) (box : Container) (p : Pool) (ps : PoolSet)
        → ps.pending_cfg ≡ none
        → get id ps.containers ≡ some box
        → get box.pool ps.pools ≡ some p
        → SameBooks (release_cpu id ps).0 (record ps {
          containers = delete id ps.containers;
          pools = put box.pool (give_back box p) ps.pools;
        })
    unfolding release_cpu
    release_cpu_known id box p ps quiet there known =
        rw (there, known, release_cpu)
          (rw (forget_known id box p ps known) (released-SameBooks box.pool _ quiet))

    -- A release keeps the books while no configuration is pending: the container has CPUs of its
    -- own or shares, its pool is there or not, or it is not known at all.
    pub release_cpu-IsBalanced :
        (id : String) (ps : PoolSet)
        → ps.pending_cfg ≡ none
        → IsBalanced ps
        → IsBalanced (release_cpu id ps).0
    unfolding release_cpu
    release_cpu-IsBalanced id ps quiet b = elim (Option-cases (get id ps.containers)) [
      | inl unknown ↦ rw (unknown, release_cpu) b
      | inr (box, there) ↦ elim (Option-cases (get box.pool ps.pools)) [
        | inl lost ↦
            rw (there, lost, release_cpu)
              (rw (forget_lost id box ps lost) (Balanced-forget b id box there lost))
        | inr (p, known) ↦
            IsBalanced-SameBooks (release_cpu id ps).0
              (record ps {
                containers = delete id ps.containers;
                pools = put box.pool (give_back box p) ps.pools;
              })
              (release_cpu_known id box p ps quiet there known)
              (give_back-IsBalanced id box p ps there known b)
      ]
    ]
