-- ===== src/Pool/Restored.antt =====
-- cmd/cpu-pool-policy/pool/pool.go: a checkpoint that is read back, and the CPUs that
-- `GetPoolAssignments` and `GetContainerCPUSet` name.
use cpu_policy_plugins_for_k.Prelude.{
  ◌≡◌, refl, true, none, some, [], ◌∷◌, String, string_eq, ◌==◌, arith, ap, sym, inl, inr,
  Bool-cases, Bool,
}
use cpu_policy_plugins_for_k.Prelude.GoMap.{GoMap, get, put, get-put}
use cpu_policy_plugins_for_k.Prelude.Outcome.{ok, Outcome-cases}
use cpu_policy_plugins_for_k.Cpuset.{Cpusets}
use cpu_policy_plugins_for_k.Pool.State.{Container, Pool, PoolSet, Host}
use cpu_policy_plugins_for_k.Pool.Assignments.{assigned, assign}
use cpu_policy_plugins_for_k.Pool.Checkpoint.{
  Json, map_values, marshal_container, unmarshal_container, marshal_pool, unmarshal_pool,
  marshal_pool_set, unmarshal_pool_set, marshal_json, unmarshal_json,
}

module _ ⦃c : Cpusets⦄ where
  open c use {CPUSet, is_empty, equals, equals_iff}

  pools_back : (m : GoMap String Pool) → map_values unmarshal_pool (map_values marshal_pool m) ≡ m
  unfolding map_values marshal_pool unmarshal_pool
  pools_back [] = refl
  pools_back ((k, p) ∷ m) = ap (λ (r : GoMap String Pool). (k, p) ∷ r) (pools_back m)

  containers_back :
      (m : GoMap String Container)
      → map_values unmarshal_container (map_values marshal_container m) ≡ m
  unfolding map_values marshal_container unmarshal_container
  containers_back [] = refl
  containers_back ((k, p) ∷ m) = ap (λ (r : GoMap String Container). (k, p) ∷ r) (containers_back m)

  -- A pool set with what another one keeps in its checkpoint.
  abbrev pub with_checkpoint : PoolSet → PoolSet → PoolSet
  with_checkpoint ps qs = record qs {
    pools = ps.pools;
    containers = ps.containers;
    current_cfg = ps.current_cfg;
    pending_cfg = ps.pending_cfg;
  }

  unmarshal-marshal :
      (isolated : CPUSet) (ps qs : PoolSet)
      → unmarshal_pool_set (marshal_pool_set isolated ps) qs ≡ with_checkpoint ps qs
  unfolding unmarshal_pool_set marshal_pool_set
  unmarshal-marshal isolated ps qs = rw (pools_back ps.pools, containers_back ps.containers) refl

  module _ ⦃h : Host⦄ ⦃j : Json⦄ where
    open j use {Document, decode-encode}

    -- A checkpoint that a pool set has written gives any other pool set its pools, containers and
    -- configurations, and leaves alone what is not in it: machine, CPUs offline and metrics. It is
    -- accepted while the kernel's isolated CPUs are the same.
    pub unmarshal_json-marshal_json :
        (ps qs : PoolSet) (doc : Document)
        → marshal_json ps ≡ ok doc
        → unmarshal_json doc qs ≡ (with_checkpoint ps qs, ok tt)
    unfolding marshal_json unmarshal_json marshal_pool_set
    unmarshal_json-marshal_json ps qs doc e =
        let read = decode-encode (marshal_pool_set h.isolated_cpus ps) doc e in
        let same : equals h.isolated_cpus h.isolated_cpus ≡ true =
          (equals_iff h.isolated_cpus h.isolated_cpus).1 (λ x. refl) in
        rw (read, unmarshal_json) (rw (unmarshal-marshal h.isolated_cpus ps qs, same) refl)

  assign_step :
      (exclusive : Bool) (ps : PoolSet) (id : String) (box : Container)
      (rest : GoMap String Container) (m : GoMap String CPUSet)
      → assign exclusive ps ((id, box) ∷ rest) ≡ ok m
      → (cpus : CPUSet) × (others : GoMap String CPUSet) × (assigned exclusive ps box ≡ ok cpus)
        × (assign exclusive ps rest ≡ ok others)
        × (m ≡ put id cpus others)
  unfolding assign
  assign_step exclusive ps id box rest m e = elim (Outcome-cases (assigned exclusive ps box)) [
    | inr (inl (f, bad)) ↦ absurd (ground (arith, bad, e))
    | inr (inr bad) ↦ absurd (ground (arith, bad, e))
    | inl (cpus, good) ↦ elim (Outcome-cases (assign exclusive ps rest)) [
      | inr (inl (f, bad)) ↦ absurd (ground (arith, good, bad, e))
      | inr (inr bad) ↦ absurd (ground (arith, good, bad, e))
      | inl (others, fine) ↦ (cpus, others, good, fine, ground (arith, good, fine, e))
    ]
  ]

  -- What `GetPoolAssignments` has for a container.
  pub assign-known :
      (exclusive : Bool) (ps : PoolSet) (boxes : GoMap String Container) (m : GoMap String CPUSet)
      (id : String) (box : Container)
      → assign exclusive ps boxes ≡ ok m
      → get id boxes ≡ some box
      → (cpus : CPUSet) × (assigned exclusive ps box ≡ ok cpus) × (get id m ≡ some cpus)
  unfolding get
  assign-known exclusive ps [] m id box e at = absurd (ground arith)
  assign-known exclusive ps ((k, first) ∷ rest) m id box e at =
      let (cpus, others, mine, further, made) = assign_step exclusive ps k first rest m e in
      elim (Bool-cases (k == id)) [
        | inl same ↦
            let is_first : first ≡ box = ground (arith, same, at) in
            (cpus, rw (sym is_first) mine, ground (arith, made, same, get-put id k cpus others))
        | inr other ↦
            let (found, of_box, there) =
              assign-known exclusive ps rest others id box further (ground (arith, other, at)) in
            (found, of_box, ground (arith, made, other, there, get-put id k cpus others))
      ]

  pub assign-unknown :
      (exclusive : Bool) (ps : PoolSet) (boxes : GoMap String Container) (m : GoMap String CPUSet)
      (id : String)
      → assign exclusive ps boxes ≡ ok m
      → get id boxes ≡ none
      → get id m ≡ none
  unfolding get assign
  assign-unknown exclusive ps [] m id e at = ground (arith, e)
  assign-unknown exclusive ps ((k, first) ∷ rest) m id e at =
      let (cpus, others, mine, further, made) = assign_step exclusive ps k first rest m e in
      elim (Bool-cases (k == id)) [
        | inl same ↦ absurd (ground (arith, same, at))
        | inr other ↦
            let there =
              assign-unknown exclusive ps rest others id further (ground (arith, other, at)) in
            ground (arith, made, other, there, get-put id k cpus others)
      ]
