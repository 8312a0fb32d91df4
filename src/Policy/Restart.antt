-- ===== src/Policy/Restart.antt =====
-- cmd/cpu-pool-policy/pool-policy-plugin.go: a restart of the plugin, from what `updateState` left.
use cpu_policy_plugins_for_k.Prelude.{
  ◌≡◌, refl, true, false, none, some, List, [], ◌∷◌, String, string_eq, arith, inl, inr,
  Option-cases, elem,
}
use cpu_policy_plugins_for_k.Prelude.GoMap.{get, keys, absent_of_get-none}
use cpu_policy_plugins_for_k.Prelude.Outcome.{ok}
use cpu_policy_plugins_for_k.Cpuset.{Cpusets}
use cpu_policy_plugins_for_k.Runtime.{GoRuntime, elem-ranged}
use cpu_policy_plugins_for_k.Kube.{Quantities}
use cpu_policy_plugins_for_k.Pool.State.{PoolSet, Host}
use cpu_policy_plugins_for_k.Pool.Queries.{verify}
use cpu_policy_plugins_for_k.Pool.Assignments.{get_pool_assignments}
use cpu_policy_plugins_for_k.Pool.Checkpoint.{Json, marshal_json}
use cpu_policy_plugins_for_k.Pool.Restored.{
  with_checkpoint, unmarshal_json-marshal_json, assign-unknown,
}
use cpu_policy_plugins_for_k.Pool.Told.{assign_total}
use cpu_policy_plugins_for_k.Policy.Store.{Stub}
use cpu_policy_plugins_for_k.Policy.Update.{update_pools_state}
use cpu_policy_plugins_for_k.Policy.Told.{update_pools_state-Informed}
use cpu_policy_plugins_for_k.Policy.Restore.{
  release_lingering, load_checkpoint, drop_lingering, restore_state,
}

module _ ⦃c : Cpusets⦄ ⦃g : GoRuntime⦄ ⦃h : Host⦄ ⦃q : Quantities⦄ ⦃j : Json⦄ ⦃st : Stub⦄ where
  open c use {CPUSet}
  open g use {range_names}
  open j use {Document}
  open st use {State, get_cpuset}

  -- No container is released that the kubelet knows.
  none_lingering :
      (ns : List String) (s : State) (ps : PoolSet)
      → ((id : String) → elem id ns ≡ true → (w : CPUSet) × (get_cpuset id s ≡ some w))
      → release_lingering ns s ps ≡ (ps, ok tt)
  unfolding release_lingering
  none_lingering [] s ps known = refl
  none_lingering (id ∷ rest) s ps known =
      let (w, there) = known id (ground (arith, string_eq.equal_iff id id)) in
      rw (there, release_lingering) (none_lingering rest s ps (λ a e. known a (ground (arith, e))))

  drop_none :
      (s : State) (ps : PoolSet)
      → verify ps ≡ ok tt
      → ((id : String)
          → (get id ps.containers ≡ none → ⊥)
          → (w : CPUSet) × (get_cpuset id s ≡ some w))
      → drop_lingering s ps ≡ (ps, ok tt)
  unfolding drop_lingering get_pool_assignments
  drop_none s ps fine known =
      let (m, made) = assign_total ps ps.containers fine in
      rw (made, drop_lingering)
        (none_lingering (range_names "restoreState" (keys m)) s ps (λ id listed. known id (λ absent.
          let lost = assign-unknown false ps ps.containers m id made absent in
          ground
            (arith, elem-ranged "restoreState" id (keys m), absent_of_get-none id m lost, listed))))

  -- A plugin that is restarted on the state which `updateState` left has the pools, the containers
  -- and the configurations that it had, whatever its pool set was before; no container is
  -- released. The pool set passes `Verify` and its checkpoint could be written, and the machine
  -- isolates the same CPUs.
  pub restore_state-update_state :
      (ps qs : PoolSet) (s : State) (doc : Document)
      → verify ps ≡ ok tt
      → marshal_json ps ≡ ok doc
      → restore_state (update_pools_state ps s).0 qs ≡ (with_checkpoint ps qs, ok tt)
  unfolding restore_state load_checkpoint verify
  restore_state-update_state ps qs s doc fine e =
      let (done, informed) = update_pools_state-Informed ps s doc fine e in
      let s' = (update_pools_state ps s).0 in
      let loaded : load_checkpoint s' qs ≡ (with_checkpoint ps qs, ok tt) =
        rw (informed.checkpoint, load_checkpoint) (unmarshal_json-marshal_json ps qs doc e) in
      rw loaded (
        drop_none s' (with_checkpoint ps qs) fine (λ id here.
          elim (Option-cases (get id ps.containers)) [
            | inl absent ↦ absurd (here absent)
            | inr (box, there) ↦ informed.all_known id box there
          ]))
