-- ===== src/Pool/Requests.antt =====
-- cmd/cpu-pool-policy/pool/pool.go: `AllocateCPU` and `AllocateCPUs` keep the books of a pool set.
use cpu_policy_plugins_for_k.Prelude.{
  ℕ, ◌≤◌, ◌<◌, ◌≡◌, refl, true, ◌&&◌, not, none, some, [], String, string_eq, ◌==◌, if◌then◌else◌,
  arith, leb, leb→le, Bool-cases, inl, inr, ap, ==-refl, Option-cases,
}
use cpu_policy_plugins_for_k.Prelude.GoMap.{get, put, put-get}
use cpu_policy_plugins_for_k.Prelude.Int.{
  ℤ, pos, wrap64, int64_of, bits64, bits64-lt, add64, bits64-add64,
}
use cpu_policy_plugins_for_k.Prelude.Outcome.{Outcome, ok, err, Outcome-cases}
use cpu_policy_plugins_for_k.Errors.{Error, not_enough_cpus}
use cpu_policy_plugins_for_k.Cpuset.{Cpusets, size-empty}
use cpu_policy_plugins_for_k.Runtime.{GoRuntime}
use cpu_policy_plugins_for_k.Sysfs.{System}
use cpu_policy_plugins_for_k.Config.{reserved_pool, default_pool}
use cpu_policy_plugins_for_k.Allocator.{allocate_cpus}
use cpu_policy_plugins_for_k.Allocator.Topology.{IsWellFormed, Online}
use cpu_policy_plugins_for_k.Allocator.Partition.{Splits, allocate_cpus-Splits, allocate_cpus_short}
use cpu_policy_plugins_for_k.Pool.State.{Pool, PoolSet, Host, is_allowed_pool, milli_cpus}
use cpu_policy_plugins_for_k.Pool.Allocation.{
  share_cpu, allocate_cpu, take_cpus, pin_container, grant_cpus, allocate_exclusive,
}
use cpu_policy_plugins_for_k.Pool.Balance.{Balanced-pin}
use cpu_policy_plugins_for_k.Pool.Books.{IsBalanced, answered-IsBalanced}

module _ ⦃c : Cpusets⦄ where
  open c use {
    CPUSet, contains, is_empty, new_cpuset, union, difference, contains-new, contains-union,
    contains-difference, is_empty_lem, size,
  }

  module _ ⦃g : GoRuntime⦄ where
    share_cpu-IsBalanced :
        (id pool : String) (req : ℤ) (p : Pool) (ps : PoolSet)
        → get id ps.containers ≡ none
        → get pool ps.pools ≡ some p
        → IsBalanced ps
        → IsBalanced (share_cpu id pool req p ps)
    unfolding share_cpu
    share_cpu-IsBalanced id pool req p ps fresh known b =
        Balanced-pin b id pool p (record p { used = add64 p.used req })
          (record { id = id; pool = pool; cpus = new_cpuset []; req = req }) fresh known refl
          (λ x h. ground (arith, contains-new [] x)) (λ x. ground (arith, contains-new [] x))
          (λ x. ground (arith, contains-new [] x))
          (ground (
            arith,
            bits64-add64 p.used req,
            is_empty_lem (new_cpuset []),
            size-empty ⦃c = c⦄,
            ==-refl pool,
          ))

    -- A request for shared CPU by a container that is new keeps the books, on every branch: the
    -- pool is unusable, unknown, or serves the request, and whether or not its figures can be
    -- published.
    pub allocate_cpu-IsBalanced :
        (id pool : String) (req : ℤ) (ps : PoolSet)
        → get id ps.containers ≡ none
        → IsBalanced ps
        → IsBalanced (allocate_cpu id pool req ps).0
    unfolding allocate_cpu
    allocate_cpu-IsBalanced id pool req ps fresh b = elim (Outcome-cases (is_allowed_pool pool)) [
      | inr (inl (e, barred)) ↦ rw (barred, allocate_cpu) b
      | inr (inr barred) ↦ rw (barred, allocate_cpu) b
      | inl (done, fine) ↦ elim (Option-cases (get pool ps.pools)) [
        | inl unknown ↦ rw (fine, unknown, allocate_cpu) b
        | inr (p, known) ↦
            rw (fine, known, allocate_cpu)
              (answered-IsBalanced pool (share_cpu id pool req p ps) p.shared
                (share_cpu-IsBalanced id pool req p ps fresh known b))
      ]
    ]

    module _ ⦃h : Host⦄ where
      pin_container-IsBalanced :
          (id pool : String) (cpus rest : CPUSet) (p : Pool) (ps : PoolSet)
          → get id ps.containers ≡ none
          → get pool ps.pools ≡ some p
          → ((x : ℤ) → contains cpus x ≡ true → contains p.shared x ≡ true)
          → ((x : ℤ) → contains rest x ≡ contains p.shared x && not (contains cpus x))
          → IsBalanced ps
          → IsBalanced (
              pin_container id pool cpus (record ps {
                pools =
                    put pool (record p { shared = rest; pinned = union p.pinned cpus }) ps.pools;
              }))
      unfolding pin_container milli_cpus wrap64 bits64 int64_of
      pin_container-IsBalanced id pool cpus rest p ps fresh known inside left b =
          Balanced-pin b id pool p (record p { shared = rest; pinned = union p.pinned cpus })
            (record { id = id; pool = pool; cpus = cpus; req = milli_cpus (pos (size cpus)) }) fresh
            known refl inside left (contains-union p.pinned cpus)
            (ground (arith, bits64-lt p.used, is_empty_lem cpus))

      -- What `takeCPUs` can find: CPUs enough, or too few.
      pub take_cpus_enough :
          (n : ℕ) (p : Pool) (result : CPUSet)
          → (allocate_cpus h.allocator_system p.shared (pos n)).1 ≡ ok result
          → take_cpus (pos n) p ≡ (
            record p {
              shared = (allocate_cpus h.allocator_system p.shared (pos n)).0;
              pinned = union p.pinned result;
            },
            ok result,
          )
      unfolding take_cpus
      take_cpus_enough n p result e = rw (e, take_cpus) refl

      pub take_cpus_short :
          (n : ℕ) (p : Pool)
          → size p.shared < n
          → take_cpus (pos n) p ≡ (p, err (not_enough_cpus (pos n)))
      unfolding take_cpus
      take_cpus_short n p short =
          let e = allocate_cpus_short h.allocator_system p.shared n short in
          rw (ap (λ (r : CPUSet × Outcome Error CPUSet). r.1) e, take_cpus)
            (rw (ap (λ (r : CPUSet × Outcome Error CPUSet). r.0) e) refl)

      -- The allocator knows the machine, and the pools share only CPUs that are online.
      pub record Serviceable (ps : PoolSet) : Type 0 where
        pub machine : System
        pub discovered : h.allocator_system ≡ some machine
        pub well_formed : IsWellFormed machine
        pub online :
            (name : String) (p : Pool) → get name ps.pools ≡ some p → Online machine p.shared

      pub served :
          (n : ℕ) (name : String) (p : Pool) (ps : PoolSet)
          → Serviceable ps
          → get name ps.pools ≡ some p
          → n ≤ size p.shared
          → Splits p.shared n (allocate_cpus h.allocator_system p.shared (pos n))
      served n name p ps v known enough =
          rw v.discovered
            (allocate_cpus-Splits v.machine p.shared n v.well_formed (v.online name p known) enough)

      grant_cpus-IsBalanced :
          (id name : String) (n : ℕ) (p : Pool) (ps : PoolSet)
          → Serviceable ps
          → get id ps.containers ≡ none
          → get name ps.pools ≡ some p
          → IsBalanced ps
          → IsBalanced (grant_cpus id name ps (take_cpus (pos n) p)).0
      unfolding grant_cpus
      grant_cpus-IsBalanced id name n p ps v fresh known b =
          elim (Bool-cases (leb n (size p.shared))) [
            | inl enough ↦
                let (result, out, sized, inside, left) =
                  served n name p ps v known (leb→le n (size p.shared) enough) in
                rw (take_cpus_enough n p result out) (
                  answered-IsBalanced name _ result
                    (pin_container-IsBalanced id name result _ p ps fresh known inside left b))
            | inr short ↦
                rw (take_cpus_short n p (ground arith)) (rw (put-get name p ps.pools known) b)
          ]

      -- A request for exclusive CPUs by a container that is new keeps the books, on every branch:
      -- the reserved pool shares instead, the pool is unusable or unknown, has CPUs enough, or too
      -- few. The allocator knows a well-formed machine, and the pools share only CPUs that are
      -- online.
      pub allocate_exclusive-IsBalanced :
          (id pool : String) (n : ℕ) (ps : PoolSet)
          → Serviceable ps
          → get id ps.containers ≡ none
          → IsBalanced ps
          → IsBalanced (allocate_exclusive id pool (pos n) ps).0
      unfolding allocate_exclusive
      allocate_exclusive-IsBalanced id pool n ps v fresh b =
          let name = if pool == "" then default_pool else pool in
          elim (Bool-cases (pool == reserved_pool)) [
            | inl reserved ↦
                rw (reserved, allocate_exclusive)
                  (allocate_cpu-IsBalanced id pool (milli_cpus (pos n)) ps fresh b)
            | inr other ↦ elim (Outcome-cases (is_allowed_pool name)) [
              | inr (inl (e, barred)) ↦ rw (other, barred, allocate_exclusive) b
              | inr (inr barred) ↦ rw (other, barred, allocate_exclusive) b
              | inl (done, fine) ↦ elim (Option-cases (get name ps.pools)) [
                | inl unknown ↦ rw (other, fine, unknown, allocate_exclusive) b
                | inr (p, known) ↦
                    rw (other, fine, known, allocate_exclusive)
                      (grant_cpus-IsBalanced id name n p ps v fresh known b)
              ]
            ]
          ]
