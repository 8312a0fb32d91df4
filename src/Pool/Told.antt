-- ===== src/Pool/Told.antt =====
-- cmd/cpu-pool-policy/pool/pool.go: `GetPoolAssignments` and `GetContainerCPUSet` name the same
-- CPUs, and when they name any.
use cpu_policy_plugins_for_k.Prelude.{
  ◌≡◌, refl, Bool, true, false, some, [], ◌∷◌, String, string_eq, ◌==◌, ◌||◌, arith, inl, inr,
  Bool-cases, Option-cases,
}
use cpu_policy_plugins_for_k.Prelude.GoMap.{GoMap, get, put}
use cpu_policy_plugins_for_k.Prelude.Outcome.{ok}
use cpu_policy_plugins_for_k.Cpuset.{Cpusets}
use cpu_policy_plugins_for_k.Config.{default_pool, reserved_pool}
use cpu_policy_plugins_for_k.Pool.State.{Container, Pool, PoolSet}
use cpu_policy_plugins_for_k.Pool.Queries.{
  verify, get_container_cpuset, get_pool_cpuset, common_cpus,
}
use cpu_policy_plugins_for_k.Pool.Assignments.{assigned, assign, get_pool_assignments}
use cpu_policy_plugins_for_k.Pool.Restored.{assign-known}

module _ ⦃c : Cpusets⦄ where
  open c use {CPUSet, is_empty, union, new_cpuset}

  -- `Verify` finds the default and the reserved pool.
  pub verified :
      (ps : PoolSet)
      → verify ps ≡ ok tt
      → (d : Pool) × (r : Pool) × (get default_pool ps.pools ≡ some d)
        × (get reserved_pool ps.pools ≡ some r)
        × (common_cpus ps.pools ≡ some (union d.shared r.shared))
  unfolding verify common_cpus
  verified ps e = elim (Option-cases (get reserved_pool ps.pools)) [
    | inl bad ↦ absurd (ground (arith, bad, e))
    | inr (r, f) ↦ elim (Option-cases (get default_pool ps.pools)) [
      | inl bad ↦ absurd (ground (arith, f, bad, e))
      | inr (d, k) ↦ (d, r, k, f, ground (arith, k, f))
    ]
  ]

  -- Neither query fails on a pool set that passes `Verify`.
  pub get_pool_cpuset_total :
      (pool : String) (ps : PoolSet)
      → verify ps ≡ ok tt
      → (r : CPUSet × Bool) × (get_pool_cpuset pool ps ≡ ok r)
  unfolding get_pool_cpuset
  get_pool_cpuset_total pool ps e =
      let (d, r, k, f, both) = verified ps e in
      elim (Option-cases (get pool ps.pools)) [
        | inl lost ↦ ((new_cpuset [], false), ground (arith, lost))
        | inr (p, known) ↦ elim (Bool-cases (pool == default_pool || pool == reserved_pool)) [
          | inl common ↦ ((union d.shared r.shared, true), ground (arith, known, common, both))
          | inr own ↦ ((p.shared, true), ground (arith, known, own))
        ]
      ]

  pub assigned_total :
      (ps : PoolSet) (box : Container)
      → verify ps ≡ ok tt
      → (cpus : CPUSet) × (assigned false ps box ≡ ok cpus)
  unfolding assigned
  assigned_total ps box e =
      let (r, found) = get_pool_cpuset_total box.pool ps e in
      elim (Bool-cases (is_empty box.cpus)) [
        | inl shares ↦ (r.0, ground (arith, found, shares))
        | inr owns ↦ (box.cpus, ground (arith, owns))
      ]

  pub assign_total :
      (ps : PoolSet) (boxes : GoMap String Container)
      → verify ps ≡ ok tt
      → (m : GoMap String CPUSet) × (assign false ps boxes ≡ ok m)
  unfolding assign
  assign_total ps [] e = ([], refl)
  assign_total ps ((id, box) ∷ rest) e =
      let (cpus, mine) = assigned_total ps box e in
      let (others, further) = assign_total ps rest e in
      (put id cpus others, ground (arith, mine, further))

  -- The CPUs that a container may run on by one query are those of the other.
  pub assigned_told :
      (id : String) (ps : PoolSet) (box : Container) (cpus : CPUSet)
      → get id ps.containers ≡ some box
      → get_container_cpuset id ps ≡ ok (cpus, true)
      → assigned false ps box ≡ ok cpus
  unfolding assigned get_container_cpuset get_pool_cpuset common_cpus
  assigned_told id ps box cpus there told = elim (Bool-cases (is_empty box.cpus)) [
    | inr owns ↦ ground (arith, there, owns, told)
    | inl shares ↦ elim (Bool-cases (box.pool == reserved_pool)) [
      | inl reserved ↦
          let is_reserved = (string_eq.equal_iff box.pool reserved_pool).0 reserved in
          ground (arith, there, shares, reserved, told, is_reserved)
      | inr unreserved ↦ elim (Bool-cases (box.pool == default_pool)) [
        | inl common ↦
            let is_default = (string_eq.equal_iff box.pool default_pool).0 common in
            ground (arith, there, shares, unreserved, common, told, is_default)
        | inr other ↦ ground (arith, there, shares, unreserved, other, told)
      ]
    ]
  ]

  -- `GetPoolAssignments` gives every container the CPUs that `GetContainerCPUSet` tells.
  pub get_pool_assignments-told :
      (id : String) (ps : PoolSet) (m : GoMap String CPUSet) (box : Container) (cpus : CPUSet)
      → get_pool_assignments false ps ≡ ok m
      → get id ps.containers ≡ some box
      → get_container_cpuset id ps ≡ ok (cpus, true)
      → get id m ≡ some cpus
  unfolding get_pool_assignments
  get_pool_assignments-told id ps m box cpus made there told =
      let (found, mine, at) = assign-known false ps ps.containers m id box made there in
      ground (arith, at, mine, assigned_told id ps box cpus there told)
