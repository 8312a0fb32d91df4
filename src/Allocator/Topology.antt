-- ===== src/Allocator/Topology.antt =====
-- What the allocator relies on: a machine whose packages share no CPU and whose cores agree about
-- their hyperthreads, as the kernel reports it and `discoverPackages` stores it.
use cpu_policy_plugins_for_k.Prelude.{
  ◌≡◌, true, false, List, [], ◌∷◌, refl, arith, elem, Distinct, some, ◌==◌, ==-refl,
}
use cpu_policy_plugins_for_k.Prelude.GoMap.{keys}
use cpu_policy_plugins_for_k.Prelude.Int.{ℤ, int_eq}
use cpu_policy_plugins_for_k.Cpuset.{Cpusets, Disjoint, SameMembers}
use cpu_policy_plugins_for_k.Sysfs.{System, Package, entries, package_at, offlined}
use cpu_policy_plugins_for_k.Allocator.{
  package_cpuset, core_cpuset, online_core, package_of, packages_known,
}

module _ ⦃c : Cpusets⦄ where
  open c use {CPUSet, contains, is_empty, to_slice}

  pub record IsWellFormed (sys : System) : Type 0 where
    pub cpus_distinct : Distinct (keys (entries sys.cpus))
    pub packages_distinct : Distinct (keys (entries sys.packages))
    pub packages_apart :
        (i j : ℤ) → (i == j) ≡ false → Disjoint (package_cpuset sys i) (package_cpuset sys j)
    pub siblings_agree :
        (i j x : ℤ)
        → contains (core_cpuset sys i) x ≡ true
        → contains (core_cpuset sys j) x ≡ true
        → SameMembers (core_cpuset sys i) (core_cpuset sys j)
    -- Every CPU is in a package that is known, and some thread of its core is online.
    pub package_known :
        (i : ℤ)
        → elem i (keys (entries sys.cpus)) ≡ true
        → (p : ℤ) × (q : Package) × (package_of sys i ≡ some p) × (package_at sys p ≡ some q)
    pub core_online :
        (i : ℤ)
        → elem i (keys (entries sys.cpus)) ≡ true
        → (x : ℤ) × (contains (online_core sys i) x ≡ true)

  -- A set of CPUs that the machine has and that are online.
  abbrev pub Online : System → CPUSet → Type 0
  Online sys s =
      (x : ℤ)
      → contains s x ≡ true
      → (elem x (keys (entries sys.cpus)) ≡ true) × (contains (offlined sys) x ≡ false)

  pub packages_known_lem :
      {sys : System} (w : IsWellFormed sys) (ids : List ℤ)
      → ((i : ℤ) → elem i ids ≡ true → elem i (keys (entries sys.cpus)) ≡ true)
      → packages_known sys ids ≡ true
  unfolding packages_known
  packages_known_lem w [] h = refl
  packages_known_lem {sys} w (i ∷ ids) h =
      let (p, q, e, f) = w.package_known i (h i (ground (arith, ==-refl i))) in
      ground (arith, e, f, packages_known_lem w ids (λ j m. h j (ground arith)))
