-- ===== src/Allocator/Idle.antt =====
-- pkg/cpuallocator/allocator.go: the packages and cores that the filters pick are idle and share
-- no CPU, and the filter over cores does not panic.
use cpu_policy_plugins_for_k.Prelude.{
  ◌≡◌, refl, Bool, true, false, ◌&&◌, List, [], ◌∷◌, arith, elem, select, Distinct, some, ◌==◌,
  Bool-cases, inl, inr, ==-refl, ap, ◌∙◌,
}
use cpu_policy_plugins_for_k.Prelude.GoMap.{keys}
use cpu_policy_plugins_for_k.Prelude.Int.{ℤ, int_eq, int_beq_iff, ltb_ℤ}
use cpu_policy_plugins_for_k.Prelude.Outcome.{ok}
use cpu_policy_plugins_for_k.Cpuset.{Cpusets, Subset, Disjoint, to_slice_of_members}
use cpu_policy_plugins_for_k.Runtime.{
  GoRuntime, Distinct-SameItems, elem-sort_select, Distinct-sort_select,
}
use cpu_policy_plugins_for_k.Sysfs.{entries, package_ids, cpu_ids, offlined}
use cpu_policy_plugins_for_k.Allocator.{
  CpuAllocator, pick, is_idle, online_package, online_core, package_cpuset, core_cpuset, is_first,
  first_of_idle_core, filter_panics, passes, take_idle_cores, take_fitting,
}
use cpu_policy_plugins_for_k.Allocator.Topology.{IsWellFormed}
use cpu_policy_plugins_for_k.Allocator.Taking.{AllIdle}
use cpu_policy_plugins_for_k.Allocator.Threads.{cpu_ids-Distinct, elem-cpu_ids}

module _ ⦃c : Cpusets⦄ where
  open c use {
    CPUSet, contains, equals, equals_iff, intersection, contains-intersection, contains-difference,
    to_slice, elem-to_slice, to_slice-Ascending,
  }

  is_idle-Subset : (a : CpuAllocator) (s : CPUSet) → is_idle a s ≡ true → Subset s a.from
  unfolding is_idle
  is_idle-Subset a s h x m =
      ground (arith, (equals_iff (intersection s a.from) s).0 h x, contains-intersection s a.from x)

  -- A core that is picked: idle, and named by its first thread.
  picked_core :
      (a : CpuAllocator) (i : ℤ)
      → passes (first_of_idle_core a) i ≡ true
      → (is_idle a (online_core a.sys i) ≡ true)
        × (is_first i (to_slice (online_core a.sys i)) ≡ some true)
  unfolding first_of_idle_core
  picked_core a i h = ground arith

  first_unique :
      (i j : ℤ) (xs : List ℤ) → is_first i xs ≡ some true → is_first j xs ≡ some true → i ≡ j
  unfolding is_first
  first_unique i j [] p q = cc
  first_unique i j (x ∷ xs) p q = ground (arith, int_beq_iff x i, int_beq_iff x j)

  module _ (a : CpuAllocator) (w : IsWellFormed a.sys) where
    online_packages_apart :
        (i j : ℤ) → (i == j) ≡ false → Disjoint (online_package a.sys i) (online_package a.sys j)
    unfolding online_package
    online_packages_apart i j ne x = ground (
      arith,
      w.packages_apart i j ne x,
      contains-difference (package_cpuset a.sys i) (offlined a.sys) x,
      contains-difference (package_cpuset a.sys j) (offlined a.sys) x,
    )

    same_core :
        (i j x : ℤ)
        → contains (online_core a.sys i) x ≡ true
        → contains (online_core a.sys j) x ≡ true
        → to_slice (online_core a.sys i) ≡ to_slice (online_core a.sys j)
    unfolding online_core
    same_core i j x p q =
        to_slice_of_members (online_core a.sys i) _ (to_slice-Ascending (online_core a.sys j)) λ y.
          ground (
            arith,
            elem-to_slice (online_core a.sys j) y,
            w.siblings_agree i j x
                (ground (arith, contains-difference (core_cpuset a.sys i) (offlined a.sys) x))
                (ground (arith, contains-difference (core_cpuset a.sys j) (offlined a.sys) x)) y,
            contains-difference (core_cpuset a.sys i) (offlined a.sys) y,
            contains-difference (core_cpuset a.sys j) (offlined a.sys) y,
          )

    picked_cores_apart :
        (i j : ℤ)
        → passes (first_of_idle_core a) i ≡ true
        → passes (first_of_idle_core a) j ≡ true
        → (i == j) ≡ false
        → Disjoint (online_core a.sys i) (online_core a.sys j)
    picked_cores_apart i j p q ne x =
        elim (Bool-cases (contains (online_core a.sys i) x && contains (online_core a.sys j) x)) [
          | inr apart ↦ apart
          | inl both ↦
              let e = same_core i j x (ground arith) (ground arith) in
              let same : i ≡ j =
                first_unique i j (to_slice (online_core a.sys i)) (picked_core a i p).1
                  (ap (is_first j) e ∙ (picked_core a j q).1) in
              ground (arith, int_beq_iff i j)
        ]

    module _ ⦃g : GoRuntime⦄ where
      open g use {sort_slice, range_ids, range_ids-SameItems}

      package_ids-Distinct : Distinct (package_ids a.sys)
      unfolding package_ids
      package_ids-Distinct =
          Distinct-SameItems _ _ (range_ids-SameItems "PackageIds" _) w.packages_distinct

      abbrev pub idle_packages : List ℤ
      idle_packages =
          sort_slice (λ i j. ltb_ℤ i j)
            (select (λ id. is_idle a (online_package a.sys id)) (package_ids a.sys))

      pub idle_packages-AllIdle : AllIdle (online_package a.sys) idle_packages a
      idle_packages-AllIdle = record {
        distinct =
            Distinct-sort_select ltb_ℤ (λ id. is_idle a (online_package a.sys id)) _
              package_ids-Distinct;
        idle = λ i m. is_idle-Subset a (online_package a.sys i) (
            ground (
              arith,
              elem-sort_select ltb_ℤ (λ id. is_idle a (online_package a.sys id)) (package_ids a.sys)
                  i,
            ));
        apart = λ i j m l ne. online_packages_apart i j ne;
      }

      abbrev pub idle_cores : List ℤ
      idle_cores =
          sort_slice (λ i j. ltb_ℤ i j) (select (passes (first_of_idle_core a)) (cpu_ids a.sys))

      idle_core_passes : (i : ℤ) → elem i idle_cores ≡ true → passes (first_of_idle_core a) i ≡ true
      idle_core_passes i m =
          ground (arith, elem-sort_select ltb_ℤ (passes (first_of_idle_core a)) (cpu_ids a.sys) i)

      pub idle_cores-AllIdle : AllIdle (online_core a.sys) idle_cores a
      idle_cores-AllIdle = record {
        distinct =
            Distinct-sort_select ltb_ℤ (passes (first_of_idle_core a)) _ (cpu_ids-Distinct w);
        idle = λ i m.
            is_idle-Subset a (online_core a.sys i) (picked_core a i (idle_core_passes i m)).0;
        apart = λ i j m l. picked_cores_apart i j (idle_core_passes i m) (idle_core_passes j l);
      }

      first_answers :
          (i : ℤ)
          → elem i (keys (entries a.sys.cpus)) ≡ true
          → (b : Bool) × (first_of_idle_core a i ≡ some b)
      unfolding first_of_idle_core
      first_answers i m = go (to_slice (online_core a.sys i)) refl
        where
          go :
              (xs : List ℤ)
              → to_slice (online_core a.sys i) ≡ xs
              → (b : Bool) × (first_of_idle_core a i ≡ some b)
          go [] e =
              let (x, on) = w.core_online i m in
              absurd (ground (arith, elem-to_slice (online_core a.sys i) x))
          go (x ∷ xs) e = elim (Bool-cases (is_idle a (online_core a.sys i))) [
            | inl idle ↦ (x == i, ground arith)
            | inr busy ↦ (false, ground arith)
          ]

      filter_answers :
          (ids : List ℤ)
          → ((i : ℤ) → elem i ids ≡ true → elem i (keys (entries a.sys.cpus)) ≡ true)
          → filter_panics (first_of_idle_core a) ids ≡ false
      unfolding filter_panics
      filter_answers [] h = refl
      filter_answers (i ∷ ids) h =
          let (b, e) = first_answers i (h i (ground (arith, ==-refl i))) in
          ground (arith, e, filter_answers ids (λ j m. h j (ground arith)))

      -- The filter over cores does not panic where every core has a thread online.
      pub take_idle_cores_lem :
          take_idle_cores a ≡ ok (take_fitting (online_core a.sys) idle_cores a)
      unfolding take_idle_cores pick
      take_idle_cores_lem =
          ground
            (arith, filter_answers (cpu_ids a.sys) (λ i m. ground (arith, elem-cpu_ids a.sys i)))
