-- ===== src/Pool/Reserving.antt =====
-- cmd/cpu-pool-policy/pool/pool.go: what `prepareReservedPool` picks for the reserved pool.
use cpu_policy_plugins_for_k.Prelude.{
  ℕ, suc, ◌+◌, ◌-◌, ◌≡◌, true, false, some, [], string_eq, if◌then◌else◌, arith, elem, Distinct,
  Bool-cases, inl, inr, ◌⊎◌, sym, ap, ◌∙◌, ltb, ltb→lt,
}
use cpu_policy_plugins_for_k.Prelude.Int.{ℤ, pos, int_eq, ltb_ℤ}
use cpu_policy_plugins_for_k.Prelude.Outcome.{ok, err}
use cpu_policy_plugins_for_k.Errors.{failed_to_reserve}
use cpu_policy_plugins_for_k.Cpuset.{Cpusets, size-empty}
use cpu_policy_plugins_for_k.Runtime.{GoRuntime, elem-sort_slice, sort_slice-Ascending}
use cpu_policy_plugins_for_k.Sysfs.{System, cpu_ids}
use cpu_policy_plugins_for_k.Config.{Config}
use cpu_policy_plugins_for_k.Pool.Reserve.{reserve_loop, pick_reserved}
use cpu_policy_plugins_for_k.Pool.Picks.{threads_of, Picked}
use cpu_policy_plugins_for_k.Pool.Picking.{reserve_loop_lem}

module _ ⦃c : Cpusets⦄ where
  open c use {
    CPUSet, new_cpuset, contains, size, union, difference, to_slice, contains-new, contains-union,
    contains-difference, elem-to_slice, to_slice-Ascending, size_lem,
  }

  module _ ⦃g : GoRuntime⦄ where
    open g use {sort_slice}

    pick_reserved_after :
        (sys : System) (rc : Config) (s : CPUSet) (m : ℕ)
        → reserve_loop sys (sort_slice ltb_ℤ (cpu_ids sys)) (new_cpuset []) rc.cpu_count
          ≡ ok (s, pos m)
        → pick_reserved sys rc ≡ (
            if ltb 0 m
            then err (failed_to_reserve (pos m))
            else ok (record rc { cpus = some s; cpu_count = pos (size s) }))
    unfolding pick_reserved
    pick_reserved_after sys rc s m e = rw (e, pick_reserved) (ground arith)

    -- What is picked for the reserved pool: so many CPUs, all of them hyperthreads of the machine, and
    -- a CPU only if all hyperthreads of the lower CPUs are picked: if `y` is picked and is no
    -- hyperthread of a CPU below `j`, then all hyperthreads of the CPUs below `j` are.
    pub record IsReserve (sys : System) (n : ℕ) (s : CPUSet) : Type 0 where
      pub sized : size s ≡ n
      pub inside :
          (y : ℤ)
          → contains s y ≡ true
          → (id : ℤ) × (elem id (cpu_ids sys) ≡ true) × (contains (threads_of sys id) y ≡ true)
      pub lowest :
          (j y : ℤ)
          → contains s y ≡ true
          → ((k : ℤ)
              → elem k (cpu_ids sys) ≡ true
              → ltb_ℤ k j ≡ true
              → contains (threads_of sys k) y ≡ false)
          → (i x : ℤ) → elem i (cpu_ids sys) ≡ true
          → ltb_ℤ i j ≡ true
          → contains (threads_of sys i) x ≡ true
          → contains s x ≡ true

    Picked-IsReserve :
        (sys : System) (n m : ℕ) (s : CPUSet)
        → Distinct (cpu_ids sys)
        → Picked sys (sort_slice ltb_ℤ (cpu_ids sys)) (new_cpuset []) n s m
        → size s ≡ n
        → IsReserve sys n s
    Picked-IsReserve sys n m s apart q sized =
        let sorted = elem-sort_slice ltb_ℤ (cpu_ids sys) in
        record {
          sized = sized;
          inside = λ y picked.
              let (id, at, h) = q.inside y picked (contains-new [] y) in
              (id, sym (sorted id) ∙ at, h);
          lowest = λ j y picked above i x at low h.
              q.lowest (sort_slice-Ascending (cpu_ids sys) apart) j y picked (contains-new [] y)
                (λ k m below. above k (sym (sorted k) ∙ m) below) i x (sorted i ∙ at) low h;
        }

    -- For a number of CPUs, `prepareReservedPool` picks a set of exactly that size, and records it
    -- and its size in the configuration; or it reports how many CPUs are wanting, and then there is
    -- a set that has all hyperthreads of the machine and is that much too small. The CPUs that are
    -- picked are hyperthreads of the machine, those of lower CPUs first: if one is picked that is no
    -- hyperthread of a CPU below a number, then all hyperthreads of the CPUs below it are picked.
    -- The number may be 0: the set is then empty, without CPU 0. The machine has no CPU twice.
    pub pick_reserved_lem :
        (sys : System) (rc : Config) (n : ℕ)
        → Distinct (cpu_ids sys)
        → rc.cpu_count ≡ pos n
        → ((s : CPUSet) × (pick_reserved sys rc
              ≡ ok (record rc { cpus = some s; cpu_count = pos n }))
            × IsReserve sys n s)
          ⊎ ((m : ℕ) × (s : CPUSet) × (pick_reserved sys rc ≡ err (failed_to_reserve (pos (suc m))))
              × (size s + suc m ≡ n)
              × ((id x : ℤ)
                  → elem id (cpu_ids sys) ≡ true
                  → contains (threads_of sys id) x ≡ true
                  → contains s x ≡ true))
    unfolding pick_reserved
    pick_reserved_lem sys rc n apart wanted =
        let ids = sort_slice ltb_ℤ (cpu_ids sys) in
        let (s, m, e, q) = reserve_loop_lem sys ids (new_cpuset []) n in
        let picked =
          pick_reserved_after sys rc s m (ap (reserve_loop sys ids (new_cpuset [])) wanted ∙ e) in
        let sized : size s + m ≡ n = omega (arith, q.total, size-empty ⦃c = c⦄) in
        elim (Bool-cases (ltb 0 m)) [
          | inl some_left ↦
              let m_is : m ≡ suc (m - 1) = ground arith in
              inr (
                m - 1,
                s,
                picked ∙ rw some_left (ap (λ (k : ℕ). err (failed_to_reserve (pos k))) m_is),
                omega arith,
                λ id x at h.
                    q.exhausted (ltb→lt 0 m some_left) id x
                      (elem-sort_slice ltb_ℤ (cpu_ids sys) id ∙ at) h,
              )
          | inr none_left ↦
              let size_is : size s ≡ n = ground arith in
              inl (
                s,
                picked
                    ∙ rw none_left (
                        ap (λ (k : ℕ). ok (record rc { cpus = some s; cpu_count = pos k }))
                          size_is),
                Picked-IsReserve sys n m s apart q size_is,
              )
        ]
