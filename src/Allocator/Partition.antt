-- ===== src/Allocator/Partition.antt =====
-- pkg/cpuallocator/allocator.go: an allocation splits the set that it is given, exactly.
use Prim.Native.Nat.{bit_and}
use cpu_policy_plugins_for_k.Prelude.{
  ℕ, ◌-◌, ◌≤◌, ◌<◌, ◌≡◌, refl, ap, true, false, not, ◌&&◌, [], arith, Option, some, ◌==◌,
  if◌then◌else◌, nat_beq, Bool-cases, inl, inr,
}
use cpu_policy_plugins_for_k.Prelude.Int.{ℤ, pos, int_eq, int_beq_iff}
use cpu_policy_plugins_for_k.Prelude.Outcome.{Outcome, ok, err}
use cpu_policy_plugins_for_k.Errors.{Error, not_enough_cpus}
use cpu_policy_plugins_for_k.Cpuset.{Cpusets, Subset, size_ext, size-empty, size-difference}
use cpu_policy_plugins_for_k.Runtime.{GoRuntime}
use cpu_policy_plugins_for_k.Sysfs.{System}
use cpu_policy_plugins_for_k.Allocator.{
  CpuAllocator, pick, take_idle_packages, take_idle_cores, take_idle_threads, take_fitting,
  online_package, online_core, after_threads, after_cores, allocate, allocate_cpus, release_cpus,
  new_cpu_allocator, alloc_idle_cores, alloc_idle_packages,
}
use cpu_policy_plugins_for_k.Allocator.Topology.{IsWellFormed, Online}
use cpu_policy_plugins_for_k.Allocator.Taking.{pos-sub, Progress, take_fitting-Progress}
use cpu_policy_plugins_for_k.Allocator.Threads.{take_idle_threads-Progress}
use cpu_policy_plugins_for_k.Allocator.Idle.{
  idle_packages-AllIdle, idle_cores, idle_cores-AllIdle, take_idle_cores_lem,
}

module _ ⦃c : Cpusets⦄ where
  open c use {CPUSet, new_cpuset, contains, size, difference, contains-new, contains-difference}

  -- The call gave `n` CPUs of `whole`, and left the others of `whole` and nothing else.
  abbrev pub Splits : CPUSet → ℕ → CPUSet × Outcome Error CPUSet → Type 0
  Splits whole n (rest, out) =
      (result : CPUSet) × (out ≡ ok result)
      × (size result ≡ n)
      × Subset result whole
      × ((x : ℤ) → contains rest x ≡ contains whole x && not (contains result x))

  abbrev pub left_and_out : CpuAllocator × Outcome Error CPUSet → CPUSet × Outcome Error CPUSet
  left_and_out (b, out) = (b.from, out)

  module _ {sys : System} {whole : CPUSet} {n : ℕ} where
    done-Splits :
        (b : CpuAllocator)
        → Progress sys whole n b
        → b.cnt ≡ pos 0
        → Splits whole n (b.from, ok b.result)
    done-Splits b p done = (b.result, refl, ground (arith, p.cnt_lem, p.total), p.inside, p.kept)

    -- What is wanted is still in `from`.
    wanted-le :
        (b : CpuAllocator) (p : Progress sys whole n b) → n ≤ size whole → p.wanted ≤ size b.from
    wanted-le b p enough = omega (
      arith,
      p.total,
      size-difference whole b.result p.inside,
      size_ext b.from (difference whole b.result)
          (λ x. ground (arith, p.kept x, contains-difference whole b.result x)),
    )

    wanted-pos :
        (b : CpuAllocator) (p : Progress sys whole n b) → (b.cnt == pos 0) ≡ false → 0 < p.wanted
    wanted-pos b p more = ground (arith, p.cnt_lem)

    module _ ⦃g : GoRuntime⦄ (w : IsWellFormed sys) (online : Online sys whole)
        (enough : n ≤ size whole) where
      Online-from : (b : CpuAllocator) → Progress sys whole n b → Online sys b.from
      Online-from b p x h = online x (ground (arith, p.kept x))

      at_sys : (b : CpuAllocator) → Progress sys whole n b → IsWellFormed b.sys
      at_sys b p = rw p.same_sys w

      after_threads_done :
          (b d : CpuAllocator)
          → take_idle_threads b ≡ ok d
          → d.cnt ≡ pos 0
          → after_threads b ≡ (d, ok d.result)
      unfolding after_threads
      after_threads_done b d e done = rw (e, after_threads) (rw done)

      after_threads-Splits :
          (b : CpuAllocator)
          → Progress sys whole n b
          → (b.cnt == pos 0) ≡ false
          → Splits whole n (left_and_out (after_threads b))
      after_threads-Splits b p more =
          let (d, e, q, done) =
            take_idle_threads-Progress b (at_sys b p) (rw p.same_sys (Online-from b p)) p
              (wanted-pos b p more) (wanted-le b p enough) in
          rw (after_threads_done b d e done) (done-Splits d q done)

      take_idle_packages-Progress :
          (b : CpuAllocator) → Progress sys whole n b → Progress sys whole n (take_idle_packages b)
      unfolding take_idle_packages pick
      take_idle_packages-Progress b p =
          take_fitting-Progress (online_package b.sys) _ b (idle_packages-AllIdle b (at_sys b p)) p

      take_idle_cores-Progress :
          (b : CpuAllocator)
          → Progress sys whole n b
          → (d : CpuAllocator) × (take_idle_cores b ≡ ok d) × Progress sys whole n d
      take_idle_cores-Progress b p = (
        take_fitting (online_core b.sys) (idle_cores b (at_sys b p)) b,
        take_idle_cores_lem b (at_sys b p),
        take_fitting-Progress (online_core b.sys) _ b (idle_cores-AllIdle b (at_sys b p)) p,
      )

      after_cores_skipped :
          (b : CpuAllocator)
          → nat_beq (bit_and b.flags alloc_idle_cores) 0 ≡ true
          → after_cores b ≡ after_threads b
      unfolding after_cores
      after_cores_skipped b skip = rw skip

      after_cores_done :
          (b d : CpuAllocator)
          → nat_beq (bit_and b.flags alloc_idle_cores) 0 ≡ false
          → take_idle_cores b ≡ ok d
          → after_cores b ≡ (if d.cnt == pos 0 then (d, ok d.result) else after_threads d)
      unfolding after_cores
      after_cores_done b d tried e = rw tried (rw (e, after_cores))

      finish :
          (d : CpuAllocator) (rest : CpuAllocator × Outcome Error CPUSet)
          → Progress sys whole n d
          → ((d.cnt == pos 0) ≡ false → Splits whole n (left_and_out rest))
          → Splits whole n (left_and_out (if d.cnt == pos 0 then (d, ok d.result) else rest))
      finish d rest p later = elim (Bool-cases (d.cnt == pos 0)) [
        | inl done ↦ rw done (done-Splits d p ((int_beq_iff d.cnt (pos 0)).0 done))
        | inr more ↦ rw more (later more)
      ]

      after_cores-Splits :
          (b : CpuAllocator)
          → Progress sys whole n b
          → (b.cnt == pos 0) ≡ false
          → Splits whole n (left_and_out (after_cores b))
      after_cores-Splits b p more =
          elim (Bool-cases (nat_beq (bit_and b.flags alloc_idle_cores) 0)) [
            | inl skip ↦ rw (after_cores_skipped b skip) (after_threads-Splits b p more)
            | inr tried ↦
                let (d, e, q) = take_idle_cores-Progress b p in
                rw (after_cores_done b d tried e)
                  (finish d (after_threads d) q (after_threads-Splits d q))
          ]

      -- `allocate` finds `n` CPUs, whatever its flags; if it skips the packages, then for `n` > 0.
      pub allocate-Splits :
          (b : CpuAllocator)
          → Progress sys whole n b
          → (nat_beq (bit_and b.flags alloc_idle_packages) 0 ≡ true → (b.cnt == pos 0) ≡ false)
          → Splits whole n (left_and_out (allocate b))
      unfolding allocate
      allocate-Splits b p more =
          elim (Bool-cases (nat_beq (bit_and b.flags alloc_idle_packages) 0)) [
            | inl skip ↦ rw skip (after_cores-Splits b p (more skip))
            | inr tried ↦ rw tried (
                finish (take_idle_packages b) (after_cores (take_idle_packages b))
                  (take_idle_packages-Progress b p)
                  (after_cores-Splits (take_idle_packages b) (take_idle_packages-Progress b p)))
          ]

  -- The allocator that a call begins with.
  abbrev pub start : System → CPUSet → ℕ → CpuAllocator
  start sys whole n = record {
    sys = sys;
    flags = 5;
    from = whole;
    cnt = pos n;
    result = new_cpuset [];
  }

  start-Progress :
      (sys : System) (whole : CPUSet) (n : ℕ) → Progress sys whole n (start sys whole n)
  start-Progress sys whole n = record {
    same_sys = refl;
    kept = λ x. ground (arith, contains-new [] x);
    inside = λ x h. ground (arith, contains-new [] x);
    wanted = n;
    cnt_lem = refl;
    total = omega (arith, size-empty);
  }

  module _ ⦃g : GoRuntime⦄ where
    allocate_all :
        (system : Option System) (from : CPUSet) (n : ℕ)
        → (pos (size from) == pos n) ≡ true
        → allocate_cpus system from (pos n) ≡ (new_cpuset [], ok from)
    unfolding allocate_cpus
    allocate_all system from n e = ground arith

    pub allocate_fewer :
        (sys : System) (from : CPUSet) (n : ℕ)
        → n ≤ size from
        → (pos (size from) == pos n) ≡ false
        → allocate_cpus (some sys) from (pos n) ≡ left_and_out (allocate (start sys from n))
    unfolding allocate_cpus new_cpu_allocator
    allocate_fewer sys from n enough e = ground arith

    -- On a well-formed machine, from a set of online CPUs that has CPUs enough, `AllocateCpus`
    -- returns exactly the number of CPUs that is asked for, all of them from the set, and leaves
    -- in the set exactly the others. It neither fails nor panics.
    pub allocate_cpus-Splits :
        (sys : System) (from : CPUSet) (n : ℕ)
        → IsWellFormed sys
        → Online sys from
        → n ≤ size from
        → Splits from n (allocate_cpus (some sys) from (pos n))
    allocate_cpus-Splits sys from n w online enough = elim (Bool-cases (pos (size from) == pos n)) [
      | inl all ↦
          rw (allocate_all (some sys) from n all)
            (from, refl, ground arith, λ x h. h, λ x. ground (arith, contains-new [] x))
      | inr fewer ↦
          rw (allocate_fewer sys from n enough fewer) (
            allocate-Splits w online enough (start sys from n) (start-Progress sys from n)
              (λ h. cc))
    ]

    -- Asked for more CPUs than the set has, `AllocateCpus` reports that and leaves the set as it
    -- was, on every machine.
    pub allocate_cpus_short :
        (system : Option System) (from : CPUSet) (n : ℕ)
        → size from < n
        → allocate_cpus system from (pos n) ≡ (from, err (not_enough_cpus (pos n)))
    unfolding allocate_cpus
    allocate_cpus_short system from n short = ground arith

    release_cpus_lem :
        (system : Option System) (from : CPUSet) (cnt : ℕ)
        → cnt ≤ size from
        → release_cpus system from (pos cnt) ≡ allocate_cpus system from (pos (size from - cnt))
    unfolding release_cpus
    release_cpus_lem system from cnt enough =
        ap (allocate_cpus system from) (pos-sub (size from) cnt enough)

    -- On a well-formed machine and from a set of online CPUs, `ReleaseCpus` with a count within the
    -- set's size: what it returns are all CPUs of the set
    -- but `cnt`, and `cnt` CPUs are left in the set.
    pub release_cpus-Splits :
        (sys : System) (from : CPUSet) (cnt : ℕ)
        → IsWellFormed sys
        → Online sys from
        → cnt ≤ size from
        → Splits from (size from - cnt) (release_cpus (some sys) from (pos cnt))
    release_cpus-Splits sys from cnt w online enough =
        rw (release_cpus_lem (some sys) from cnt enough)
          (allocate_cpus-Splits sys from (size from - cnt) w online (omega arith))
