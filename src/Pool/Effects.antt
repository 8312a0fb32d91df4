-- ===== src/Pool/Effects.antt =====
-- cmd/cpu-pool-policy/pool/pool.go: all that a request for CPU can do to a pool set.
use cpu_policy_plugins_for_k.Prelude.{
  ℕ, ◌≡◌, refl, some, String, string_eq, ◌==◌, if◌then◌else◌, arith, leb, leb→le, inl, inr,
  Bool-cases, Option-cases,
}
use cpu_policy_plugins_for_k.Prelude.GoMap.{get, put-get}
use cpu_policy_plugins_for_k.Prelude.Int.{ℤ, pos}
use cpu_policy_plugins_for_k.Prelude.Outcome.{ok, Outcome-cases}
use cpu_policy_plugins_for_k.Cpuset.{Cpusets}
use cpu_policy_plugins_for_k.Runtime.{GoRuntime}
use cpu_policy_plugins_for_k.Config.{reserved_pool, default_pool}
use cpu_policy_plugins_for_k.Allocator.{allocate_cpus}
use cpu_policy_plugins_for_k.Allocator.Partition.{Splits}
use cpu_policy_plugins_for_k.Pool.State.{Pool, PoolSet, Host, is_allowed_pool, milli_cpus}
use cpu_policy_plugins_for_k.Pool.Allocation.{
  share_cpu, allocate_cpu, take_cpus, pin_container, grant_cpus, allocate_exclusive,
}
use cpu_policy_plugins_for_k.Pool.Books.{SameBooks, answered-SameBooks}
use cpu_policy_plugins_for_k.Pool.Requests.{Serviceable, served, take_cpus_enough, take_cpus_short}
use cpu_policy_plugins_for_k.Pool.Granted.{pinned_state}
use cpu_policy_plugins_for_k.Pool.Conserved.{
  KeepsPools, KeepsPools-refl, KeepsPools-put, SameCpus-pin,
}

module _ ⦃c : Cpusets⦄ ⦃g : GoRuntime⦄ where
  open c use {CPUSet, size}

  -- A request by a container is refused or leaves no trace, adds it to those that share a pool, or
  -- moves CPUs of a pool from those shared to those given away and gives it these.
  pub data Effect (id : String) (ps : PoolSet) (qs : PoolSet) : Type 0 where
    unchanged : SameBooks qs ps → Effect id ps qs
    shares :
        (name : String) (req : ℤ) (p : Pool)
        → get name ps.pools ≡ some p
        → SameBooks qs (share_cpu id name req p ps)
        → Effect id ps qs
    pins :
        (name : String) (n : ℕ) (p : Pool) (rest result : CPUSet)
        → get name ps.pools ≡ some p
        → Splits p.shared n (rest, ok result)
        → SameBooks qs (pinned_state id name result rest p ps)
        → Effect id ps qs

  nothing : (id : String) (ps : PoolSet) → Effect id ps ps
  nothing id ps = unchanged (refl, refl, refl)

  pub allocate_cpu-Effect :
      (id pool : String) (req : ℤ) (ps : PoolSet) → Effect id ps (allocate_cpu id pool req ps).0
  unfolding allocate_cpu
  allocate_cpu-Effect id pool req ps = elim (Outcome-cases (is_allowed_pool pool)) [
    | inr (inl (e, barred)) ↦ rw (barred, allocate_cpu) (nothing id ps)
    | inr (inr barred) ↦ rw (barred, allocate_cpu) (nothing id ps)
    | inl (done, fine) ↦ elim (Option-cases (get pool ps.pools)) [
      | inl unknown ↦ rw (fine, unknown, allocate_cpu) (nothing id ps)
      | inr (p, known) ↦
          rw (fine, known, allocate_cpu)
            (shares pool req p known
              (answered-SameBooks pool (share_cpu id pool req p ps) p.shared))
    ]
  ]

  module _ ⦃h : Host⦄ where
    grant_cpus-Effect :
        (id name : String) (n : ℕ) (p : Pool) (ps : PoolSet)
        → Serviceable ps
        → get name ps.pools ≡ some p
        → Effect id ps (grant_cpus id name ps (take_cpus (pos n) p)).0
    unfolding grant_cpus
    grant_cpus-Effect id name n p ps v known = elim (Bool-cases (leb n (size p.shared))) [
      | inl enough ↦
          let (result, out, sized, inside, left) =
            served n name p ps v known (leb→le n (size p.shared) enough) in
          let rest = (allocate_cpus h.allocator_system p.shared (pos n)).0 in
          rw (take_cpus_enough n p result out) (
            pins name n p rest result known (result, refl, sized, inside, left)
              (answered-SameBooks name (pinned_state id name result rest p ps) result))
      | inr short ↦
          rw (take_cpus_short n p (ground arith))
            (rw (put-get name p ps.pools known) (nothing id ps))
    ]

    pub allocate_exclusive-Effect :
        (id pool : String) (n : ℕ) (ps : PoolSet)
        → Serviceable ps
        → Effect id ps (allocate_exclusive id pool (pos n) ps).0
    unfolding allocate_exclusive
    allocate_exclusive-Effect id pool n ps v =
        let name = if pool == "" then default_pool else pool in
        elim (Bool-cases (pool == reserved_pool)) [
          | inl reserved ↦
              rw (reserved, allocate_exclusive)
                (allocate_cpu-Effect id pool (milli_cpus (pos n)) ps)
          | inr other ↦ elim (Outcome-cases (is_allowed_pool name)) [
            | inr (inl (e, barred)) ↦ rw (other, barred, allocate_exclusive) (nothing id ps)
            | inr (inr barred) ↦ rw (other, barred, allocate_exclusive) (nothing id ps)
            | inl (done, fine) ↦ elim (Option-cases (get name ps.pools)) [
              | inl unknown ↦ rw (other, fine, unknown, allocate_exclusive) (nothing id ps)
              | inr (p, known) ↦
                  rw (other, fine, known, allocate_exclusive)
                    (grant_cpus-Effect id name n p ps v known)
            ]
          ]
        ]

  -- A request keeps the pools, each with its CPUs, and leaves a pending configuration alone.
  pub Effect-KeepsPools :
      (id : String) (ps qs : PoolSet)
      → Effect id ps qs
      → KeepsPools ps.pools qs.pools × (qs.pending_cfg ≡ ps.pending_cfg)
  unfolding share_cpu pin_container
  Effect-KeepsPools id ps qs (unchanged same) = (rw same.0 (KeepsPools-refl ps.pools), same.2)
  Effect-KeepsPools id ps qs (shares name req p known same) =
      (rw same.0 (KeepsPools-put name p _ ps.pools known (λ x. refl)), same.2)
  Effect-KeepsPools id ps qs (pins name n p rest result known (r, is, sized, inside, left) same) =
      let result_is : result ≡ r = ground (arith, is) in
      (
        rw same.0 (
            KeepsPools-put name p _ ps.pools known
              (SameCpus-pin p rest result (rw result_is inside) (rw result_is left))),
        same.2,
      )
