-- ===== src/Allocator/Taking.antt =====
-- pkg/cpuallocator/allocator.go: what the loops over packages, cores and threads keep.
use cpu_policy_plugins_for_k.Prelude.{
  ℕ, ◌+◌, ◌-◌, ◌≤◌, ◌≡◌, true, false, not, ◌&&◌, List, [], ◌∷◌, arith, elem, elem-count, Distinct,
  ◌==◌, Bool-cases, inl, inr, ==-refl,
}
use cpu_policy_plugins_for_k.Prelude.Int.{ℤ, pos, int_eq, int_beq_iff, leb_ℤ, ◌-ℤ◌}
use cpu_policy_plugins_for_k.Cpuset.{Cpusets, Disjoint, Subset, size-union}
use cpu_policy_plugins_for_k.Sysfs.{System}
use cpu_policy_plugins_for_k.Allocator.{CpuAllocator, take_set, take_fitting}

pub pos-sub : (m k : ℕ) → k ≤ m → pos m -ℤ pos k ≡ pos (m - k)
unfolding ◌-ℤ◌
pos-sub m k h = ground arith

module _ ⦃c : Cpusets⦄ where
  open c use {
    CPUSet, new_cpuset, contains, size, union, difference, contains-union, contains-difference,
    contains-new,
  }

  -- An allocation of `n` CPUs out of `whole` under way: every CPU is still in `from` or already in
  -- `result`, and `wanted` more are to be taken.
  pub record Progress (sys : System) (whole : CPUSet) (n : ℕ) (a : CpuAllocator) : Type 0 where
    pub same_sys : a.sys ≡ sys
    pub kept : (x : ℤ) → contains a.from x ≡ contains whole x && not (contains a.result x)
    pub inside : (x : ℤ) → contains a.result x ≡ true → contains whole x ≡ true
    pub wanted : ℕ
    pub cnt_lem : a.cnt ≡ pos wanted
    pub total : wanted + size a.result ≡ n

  -- Every set of the list lies in `from`, and no two share a CPU.
  pub record AllIdle (set_of : ℤ → CPUSet) (ids : List ℤ) (a : CpuAllocator) : Type 0 where
    pub distinct : Distinct ids
    pub idle : (i : ℤ) → elem i ids ≡ true → Subset (set_of i) a.from
    pub apart :
        (i j : ℤ)
        → elem i ids ≡ true
        → elem j ids ≡ true
        → (i == j) ≡ false
        → Disjoint (set_of i) (set_of j)

  AllIdle-tail :
      {set_of : ℤ → CPUSet} {i : ℤ} {ids : List ℤ} {a : CpuAllocator}
      → AllIdle set_of (i ∷ ids) a
      → AllIdle set_of ids a
  AllIdle-tail h = record {
    distinct = λ x. ground (arith, h.distinct x);
    idle = λ j m. h.idle j (ground arith);
    apart = λ j k m l. h.apart j k (ground arith) (ground arith);
  }

  AllIdle-take_set :
      {set_of : ℤ → CPUSet} {i : ℤ} {ids : List ℤ} {a : CpuAllocator}
      → AllIdle set_of (i ∷ ids) a
      → AllIdle set_of ids (take_set (set_of i) a)
  unfolding take_set
  AllIdle-take_set {set_of} {i} {ids} {a} h = record {
    distinct = λ x. ground (arith, h.distinct x);
    idle = λ j m x k. ground (
      arith,
      contains-difference a.from (set_of i) x,
      h.idle j (ground arith) x,
      h.apart i j (ground (arith, ==-refl i)) (ground arith)
          (ground (arith, int_beq_iff i j, h.distinct j, elem-count j ids)) x,
    );
    apart = λ j k m l. h.apart j k (ground arith) (ground arith);
  }

  module _ {sys : System} {whole : CPUSet} {n : ℕ} where
    pub take_set-Progress :
        (cset : CPUSet) (a : CpuAllocator) (p : Progress sys whole n a)
        → Subset cset a.from
        → size cset ≤ p.wanted
        → Progress sys whole n (take_set cset a)
    unfolding take_set
    take_set-Progress cset a p sub fits = record {
      same_sys = p.same_sys;
      kept = λ x.
          ground
            (arith, p.kept x, contains-difference a.from cset x, contains-union a.result cset x);
      inside = λ x h. ground (arith, p.inside x, p.kept x, sub x, contains-union a.result cset x);
      wanted = p.wanted - size cset;
      cnt_lem = cc (p.cnt_lem, pos-sub p.wanted (size cset) fits);
      total =
          omega (arith, p.total, size-union a.result cset (λ x. ground (arith, p.kept x, sub x)));
    }

    fits_wanted :
        {cset : CPUSet} (a : CpuAllocator) (p : Progress sys whole n a)
        → leb_ℤ (pos (size cset)) a.cnt ≡ true
        → size cset ≤ p.wanted
    fits_wanted a p h = ground (arith, p.cnt_lem)

    -- The loops over packages and cores.
    pub take_fitting-Progress :
        (set_of : ℤ → CPUSet) (ids : List ℤ) (a : CpuAllocator)
        → AllIdle set_of ids a
        → Progress sys whole n a
        → Progress sys whole n (take_fitting set_of ids a)
    unfolding take_fitting
    take_fitting-Progress set_of [] a h p = p
    take_fitting-Progress set_of (i ∷ ids) a h p =
        elim (Bool-cases (leb_ℤ (pos (size (set_of i))) a.cnt)) [
          | inr skip ↦ rw skip (take_fitting-Progress set_of ids a (AllIdle-tail h) p)
          | inl fits ↦
              let q =
                take_set-Progress (set_of i) a p (h.idle i (ground (arith, ==-refl i)))
                  (fits_wanted a p fits) in
              elim (Bool-cases ((take_set (set_of i) a).cnt == pos 0)) [
                | inl done ↦ rw (fits, done) q
                | inr more ↦
                    rw (fits, more)
                      (take_fitting-Progress set_of ids (take_set (set_of i) a) (AllIdle-take_set h)
                        q)
              ]
        ]
