-- ===== src/Policy/Told.antt =====
-- cmd/cpu-pool-policy/pool-policy-plugin.go: what the kubelet knows after `updateState`.
use cpu_policy_plugins_for_k.Prelude.{
  ◌≡◌, refl, Bool, true, false, none, some, List, [], ◌∷◌, String, string_eq, arith, sym, ◌∙◌, inl,
  inr, Bool-cases, Option-cases, elem,
}
use cpu_policy_plugins_for_k.Prelude.GoMap.{
  GoMap, get, keys, get-none_of_absent, absent_of_get-none,
}
use cpu_policy_plugins_for_k.Prelude.Int.{ℤ}
use cpu_policy_plugins_for_k.Prelude.Outcome.{ok}
use cpu_policy_plugins_for_k.Cpuset.{Cpusets, SameMembers}
use cpu_policy_plugins_for_k.Runtime.{GoRuntime, elem-ranged}
use cpu_policy_plugins_for_k.Kube.{Quantities}
use cpu_policy_plugins_for_k.Config.{default_pool}
use cpu_policy_plugins_for_k.Pool.State.{Container, PoolSet, Host}
use cpu_policy_plugins_for_k.Pool.Queries.{
  verify, pool_capacities, get_pool_cpuset, get_container_cpuset,
}
use cpu_policy_plugins_for_k.Pool.Assignments.{get_pool_assignments}
use cpu_policy_plugins_for_k.Pool.Checkpoint.{Json, marshal_json}
use cpu_policy_plugins_for_k.Pool.Restored.{assign-known, assign-unknown}
use cpu_policy_plugins_for_k.Pool.Told.{
  get_pool_assignments-told, get_pool_cpuset_total, assign_total,
}
use cpu_policy_plugins_for_k.Policy.Store.{Stub}
use cpu_policy_plugins_for_k.Policy.Update.{
  pool_state_key, set_cpusets, update_resources, tell, update_pools_state,
}

module _ ⦃c : Cpusets⦄ ⦃q : Quantities⦄ ⦃j : Json⦄ ⦃st : Stub⦄ where
  open c use {CPUSet}
  open j use {Document}
  open st use {
    State, get_cpuset, get_default_cpuset, get_policy_entry, set_cpuset, set_policy_entry,
    update_resource, get_cpuset-set, get_cpuset-set_other, get_cpuset-entry, get_cpuset-resource,
    get_cpuset-default, get_default-set, entry-set, entry-cpuset, entry-resource, entry-default,
  }

  -- A container is known to the kubelet with CPUs that are those of a set.
  abbrev pub KnownWith : String → CPUSet → State → Type 0
  KnownWith id cpus s = (w : CPUSet) × (get_cpuset id s ≡ some w) × SameMembers w cpus

  set_cpusets-other :
      (id : String) (ns : List String) (m : GoMap String CPUSet) (s : State)
      → elem id ns ≡ false
      → get_cpuset id (set_cpusets ns m s) ≡ get_cpuset id s
  unfolding set_cpusets
  set_cpusets-other id [] m s e = refl
  set_cpusets-other id (k ∷ rest) m s e = elim (Option-cases (get k m)) [
    | inl f ↦ rw (f, set_cpusets) (set_cpusets-other id rest m s (ground (arith, e)))
    | inr (v, f) ↦
        rw (f, set_cpusets)
          (set_cpusets-other id rest m (set_cpuset k v s) (ground (arith, e))
            ∙ get_cpuset-set_other k id v s (ground (arith, e)))
  ]

  set_cpusets-known :
      (id : String) (v : CPUSet) (ns : List String) (m : GoMap String CPUSet) (s : State)
      → get id m ≡ some v
      → elem id ns ≡ true
      → KnownWith id v (set_cpusets ns m s)
  unfolding set_cpusets
  set_cpusets-known id v [] m s at e = absurd (cc (e))
  set_cpusets-known id v (k ∷ rest) m s at e = elim (Bool-cases (elem id rest)) [
    | inl later ↦ elim (Option-cases (get k m)) [
      | inl f ↦ rw (f, set_cpusets) (set_cpusets-known id v rest m s at later)
      | inr (u, f) ↦ rw (f, set_cpusets) (set_cpusets-known id v rest m (set_cpuset k u s) at later)
    ]
    | inr gone ↦
        let same : k ≡ id = (string_eq.equal_iff k id).0 (ground (arith, e, gone)) in
        let f : get k m ≡ some v = rw same at in
        let (w, set, members) = get_cpuset-set k v s in
        rw (f, set_cpusets)
          (w, set_cpusets-other id rest m (set_cpuset k v s) gone ∙ rw (sym same) set, members)
  ]

  set_cpusets-entry :
      (key : String) (ns : List String) (m : GoMap String CPUSet) (s : State)
      → get_policy_entry key (set_cpusets ns m s) ≡ get_policy_entry key s
  unfolding set_cpusets
  set_cpusets-entry key [] m s = refl
  set_cpusets-entry key (k ∷ rest) m s = elim (Option-cases (get k m)) [
    | inl f ↦ rw (f, set_cpusets) (set_cpusets-entry key rest m s)
    | inr (v, f) ↦
        rw (f, set_cpusets)
          (set_cpusets-entry key rest m (set_cpuset k v s) ∙ entry-cpuset key k v s)
  ]

  update_resources-keeps :
      (id key : String) (ns : List String) (m : GoMap String ℤ) (s : State)
      → (get_cpuset id (update_resources ns m s) ≡ get_cpuset id s)
        × (get_policy_entry key (update_resources ns m s) ≡ get_policy_entry key s)
  unfolding update_resources
  update_resources-keeps id key [] m s = (refl, refl)
  update_resources-keeps id key (k ∷ rest) m s = elim (Option-cases (get k m)) [
    | inl f ↦ rw (f, update_resources) (update_resources-keeps id key rest m s)
    | inr (v, f) ↦
        let ih = update_resources-keeps id key rest m (update_resource _ _ s) in
        rw (f, update_resources)
          (ih.0 ∙ get_cpuset-resource id _ _ s, ih.1 ∙ entry-resource key _ _ s)
  ]

  module _ ⦃g : GoRuntime⦄ ⦃h : Host⦄ where
    open g use {range_names, range_names-SameItems}

    module _ (ps : PoolSet) (m : GoMap String CPUSet) (default_cpus : CPUSet) (s : State) where
      tell-keeps :
          (id key : String)
          → (get_cpuset id (tell ps m default_cpus s)
              ≡ get_cpuset id (set_cpusets (range_names "updateState" (keys m)) m s))
            × (get_policy_entry key (tell ps m default_cpus s) ≡ get_policy_entry key s)
      unfolding tell
      tell-keeps id key =
          let told = set_cpusets (range_names "updateState" (keys m)) m s in
          let capacities = pool_capacities ps.pools in
          let names = range_names "updateState resources" (keys capacities) in
          let kept = update_resources-keeps id key names capacities told in
          (
            get_cpuset-default id default_cpus (update_resources names capacities told) ∙ kept.0,
            entry-default key default_cpus (update_resources names capacities told)
                ∙ kept.1
                ∙ set_cpusets-entry key (range_names "updateState" (keys m)) m s,
          )

      tell-default : get_default_cpuset (tell ps m default_cpus s) ≡ default_cpus
      unfolding tell
      tell-default = get_default-set default_cpus _

      tell-known :
          (id : String) (cpus : CPUSet)
          → get id m ≡ some cpus
          → KnownWith id cpus (tell ps m default_cpus s)
      tell-known id cpus at =
          let listed : elem id (range_names "updateState" (keys m)) ≡ true =
            ground (arith, elem-ranged "updateState" id (keys m), get-none_of_absent id m, at) in
          let (w, set, members) =
            set_cpusets-known id cpus (range_names "updateState" (keys m)) m s at listed in
          (w, (tell-keeps id "").0 ∙ set, members)

      tell-unknown :
          (id : String)
          → get id m ≡ none
          → get_cpuset id (tell ps m default_cpus s) ≡ get_cpuset id s
      tell-unknown id at =
          (tell-keeps id "").0
          ∙ set_cpusets-other id (range_names "updateState" (keys m)) m s
              (ground (arith, elem-ranged "updateState" id (keys m), absent_of_get-none id m, at))

    -- The kubelet knows what the pool set knows: its checkpoint, the CPUs of the default pool, and
    -- each container with the CPUs that the pool set tells for it. It knows of others what it did.
    pub record Informed (ps : PoolSet) (doc : Document) (before after : State) : Type 0 where
      pub checkpoint : get_policy_entry pool_state_key after ≡ some doc
      pub default_known :
          (r : CPUSet × Bool) × (get_pool_cpuset default_pool ps ≡ ok r)
          × (get_default_cpuset after ≡ r.0)
      pub boxes_known :
          (id : String) (box : Container) (cpus : CPUSet)
          → get id ps.containers ≡ some box
          → get_container_cpuset id ps ≡ ok (cpus, true)
          → KnownWith id cpus after
      pub all_known :
          (id : String) (box : Container)
          → get id ps.containers ≡ some box
          → (w : CPUSet) × (get_cpuset id after ≡ some w)
      pub others_known :
          (id : String) → get id ps.containers ≡ none → get_cpuset id after ≡ get_cpuset id before

    told_by :
        (ps : PoolSet) (doc : Document) (m : GoMap String CPUSet) (r : CPUSet × Bool) (s : State)
        → marshal_json ps ≡ ok doc
        → get_pool_assignments false ps ≡ ok m
        → get_pool_cpuset default_pool ps ≡ ok r
        → update_pools_state ps s ≡ (tell ps m r.0 (set_policy_entry pool_state_key doc s), ok tt)
    unfolding update_pools_state
    told_by ps doc m (cpus, known) s e f k =
        rw (e, update_pools_state) (rw (f, update_pools_state) (rw (k, update_pools_state) refl))

    -- On a pool set that passes `Verify` and whose checkpoint can be written, `updateState` succeeds
    -- and leaves the kubelet informed: of the checkpoint, of the CPUs of the default pool, and of
    -- the CPUs of every container that the pool set tells CPUs for; what it knows of containers
    -- that the pool set does not have stays as it was.
    pub update_pools_state-Informed :
        (ps : PoolSet) (s : State) (doc : Document)
        → verify ps ≡ ok tt
        → marshal_json ps ≡ ok doc
        → ((update_pools_state ps s).1 ≡ ok tt) × Informed ps doc s (update_pools_state ps s).0
    unfolding get_pool_assignments
    update_pools_state-Informed ps s doc fine e =
        let (m, made) = assign_total ps ps.containers fine in
        let (r, found) = get_pool_cpuset_total default_pool ps fine in
        let kept = set_policy_entry pool_state_key doc s in
        rw (told_by ps doc m r s e made found) (
          refl,
          record {
            checkpoint =
                (tell-keeps ps m r.0 kept "" pool_state_key).1 ∙ entry-set pool_state_key doc s;
            default_known = (r, found, tell-default ps m r.0 kept);
            boxes_known = λ id box cpus there told.
                tell-known ps m r.0 kept id cpus
                  (get_pool_assignments-told id ps m box cpus made there told);
            all_known = λ id box there.
                let (cpus, mine, at) = assign-known false ps ps.containers m id box made there in
                let (w, set, same) = tell-known ps m r.0 kept id cpus at in (w, set);
            others_known = λ id unknown.
                tell-unknown ps m r.0 kept id
                  (assign-unknown false ps ps.containers m id made unknown)
                ∙ get_cpuset-entry id pool_state_key doc s;
          },
        )
