-- ===== src/Sysfs/Filed.antt =====
-- pkg/sysfs/system.go: what `discoverPackages` makes of the records of the CPUs.
use mathlib.Core.Path.{subst}
use cpu_policy_plugins_for_k.Prelude.{
  ◌≡◌, refl, ◌∙◌, Bool, false, ◌&&◌, ◌||◌, Bool-cases, Option, none, some, Option-cases, inl, inr,
  List, [], ◌∷◌, elem, elem-count, Distinct, ◌==◌, arith, String,
}
use cpu_policy_plugins_for_k.Prelude.GoMap.{
  GoMap, get, put, keys, get-put, get-put-cases, count-keys-put, get-none_of_absent,
}
use cpu_policy_plugins_for_k.Prelude.Int.{ℤ, int_eq, int_beq_iff}
use cpu_policy_plugins_for_k.Runtime.{GoRuntime, elem-SameItems}
use cpu_policy_plugins_for_k.Sysfs.Sets.{IdSet, id_set, add, has}
use cpu_policy_plugins_for_k.Sysfs.Machine.{Cpu, Package, System, entries}
use cpu_policy_plugins_for_k.Sysfs.Packages.{
  fresh_package, add_to_package, file_cpu, file_cpus, discover_packages,
}

-- Whether a CPU is in a package, as the packages have it and as the CPU's own record has it.
abbrev pub listed : GoMap ℤ Package → ℤ → ℤ → Bool
listed pkgs p x = elim (get p pkgs) [ none ↦ false | some pkg ↦ has pkg.cpus x ]

abbrev pub belongs : GoMap ℤ Cpu → ℤ → ℤ → Bool
belongs cpus p x = elim (get x cpus) [ none ↦ false | some cpu ↦ cpu.pkg == p ]

-- A record is stored under its own id.
abbrev pub IsFiled : GoMap ℤ Cpu → Type 0
IsFiled cpus = (i : ℤ) (cpu : Cpu) → get i cpus ≡ some cpu → cpu.id ≡ i

pub Distinct-put :
    {V : Type 0} (k : ℤ) (v : V) (m : List (ℤ × V))
    → Distinct (keys m)
    → Distinct (keys (put k v m))
Distinct-put k v m d a = ground (arith, d a, count-keys-put a k v m, elem-count a (keys m))

abbrev IsMade : IdSet → Type 0
IsMade s = (xs : List ℤ) × (s ≡ id_set xs)

abbrev IsMadePackage : ℤ → Package → Type 0
IsMadePackage p pkg = (pkg.id ≡ p) × IsMade pkg.cpus × IsMade pkg.nodes

-- Each package stands once, under its own id, and its sets were made.
abbrev AllMade : GoMap ℤ Package → Type 0
AllMade pkgs =
    Distinct (keys pkgs) × ((p : ℤ) (pkg : Package) → get p pkgs ≡ some pkg → IsMadePackage p pkg)

add-IsMade :
    (s : IdSet) (x : ℤ)
    → IsMade s
    → (t : IdSet) × (add s x ≡ some (t, has s x))
      × IsMade t
      × ((y : ℤ) → has t y ≡ (x == y) || has s y)
unfolding add has
add-IsMade s x (xs, e) = elim (Bool-cases (elem x xs)) [
  | inl old ↦ (id_set xs, rw (e, old) refl, (xs, refl), λ y. rw e (ground (arith, int_beq_iff x y)))
  | inr new ↦ (id_set (x ∷ xs), rw (e, new) refl, (x ∷ xs, refl), λ y. rw e refl)
]

-- What filing a CPU comes to.
abbrev Filing : Cpu → GoMap ℤ Package → Option (GoMap ℤ Package) → Type 0
Filing cpu pkgs outcome =
    (filed : GoMap ℤ Package) × (outcome ≡ some filed)
    × AllMade filed
    × ((p x : ℤ) → listed filed p x ≡ ((cpu.pkg == p) && (cpu.id == x)) || listed pkgs p x)

add_to_package-Filing :
    (cpu : Cpu) (pkg : Package) (pkgs : GoMap ℤ Package)
    → IsMadePackage cpu.pkg pkg
    → AllMade pkgs
    → ((x : ℤ) → has pkg.cpus x ≡ listed pkgs cpu.pkg x)
    → Filing cpu pkgs (add_to_package cpu pkg pkgs)
unfolding add_to_package
add_to_package-Filing cpu pkg pkgs (same, made, made_nodes) all before =
    let (cs, e, m, h) = add-IsMade pkg.cpus cpu.id made in
    let (ns, f, n, k) = add-IsMade pkg.nodes cpu.node made_nodes in
    let stored : Package = record pkg { cpus = cs; nodes = ns } in
    (
      put cpu.pkg stored pkgs,
      rw (e, add_to_package) (rw (f, add_to_package) refl),
      (
        Distinct-put cpu.pkg stored pkgs all.0,
        λ p q r. elim (get-put-cases p cpu.pkg stored q pkgs r) [
          | inl (here, is) ↦ subst (IsMadePackage p) is (same ∙ here, m, n)
          | inr (other, found) ↦ all.1 p q found
        ],
      ),
      λ p x. ground (arith, get-put p cpu.pkg stored pkgs, h x, before x, int_beq_iff cpu.pkg p),
    )

file_cpu-Filing :
    (cpu : Cpu) (pkgs : GoMap ℤ Package) → AllMade pkgs → Filing cpu pkgs (file_cpu cpu pkgs)
unfolding file_cpu has
file_cpu-Filing cpu pkgs all = elim (Option-cases (get cpu.pkg pkgs)) [
  | inl unknown ↦
      rw (unknown, file_cpu)
        (add_to_package-Filing cpu (fresh_package cpu.pkg) pkgs (refl, ([], refl), ([], refl)) all
          λ x. ground (arith, unknown))
  | inr (pkg, known) ↦
      rw (known, file_cpu)
        (add_to_package-Filing cpu pkg pkgs (all.1 cpu.pkg pkg known) all
          λ x. ground (arith, known))
]

-- Whether a CPU is in a package by the records with these ids.
abbrev among : GoMap ℤ Cpu → List ℤ → ℤ → ℤ → Bool
among cpus [] p x = false
among cpus (i ∷ is) p x = (elem x (i ∷ []) && belongs cpus p x) || among cpus is p x

file_cpus_lem :
    (cpus : GoMap ℤ Cpu) (is : List ℤ) (pkgs : GoMap ℤ Package)
    → IsFiled cpus
    → AllMade pkgs
    → (filed : GoMap ℤ Package) × (file_cpus cpus is pkgs ≡ some filed)
      × AllMade filed
      × ((p x : ℤ) → listed filed p x ≡ among cpus is p x || listed pkgs p x)
unfolding file_cpus
file_cpus_lem cpus [] pkgs own all = (pkgs, refl, all, λ p x. refl)
file_cpus_lem cpus (i ∷ is) pkgs own all = elim (Option-cases (get i cpus)) [
  | inl missing ↦
      let (filed, e, made, h) = file_cpus_lem cpus is pkgs own all in
      (
        filed,
        rw (missing, file_cpus) e,
        made,
        λ p x. ground (arith, h p x, missing, int_beq_iff i x),
      )
  | inr (cpu, found) ↦
      let (once, e, made_once, step) = file_cpu-Filing cpu pkgs all in
      let (filed, f, made, h) = file_cpus_lem cpus is once own made_once in
      (
        filed,
        rw (found, file_cpus) (rw (e, file_cpus) f),
        made,
        λ p x. ground (arith, h p x, step p x, found, own i cpu found, int_beq_iff i x),
      )
]

among_lem :
    (cpus : GoMap ℤ Cpu) (is : List ℤ) (p x : ℤ) → among cpus is p x ≡ elem x is && belongs cpus p x
among_lem cpus [] p x = refl
among_lem cpus (i ∷ is) p x = ground (arith, among_lem cpus is p x)

nothing-AllMade : AllMade []
unfolding get
nothing-AllMade = (λ a. omega arith, λ p pkg r. absurd (cc (r)))

module _ ⦃g : GoRuntime⦄ where
  open g use {range_ids, range_ids-SameItems}

  among_all :
      (cpus : GoMap ℤ Cpu) (loop : String) (p x : ℤ)
      → among cpus (range_ids loop (keys cpus)) p x ≡ belongs cpus p x
  among_all cpus loop p x = elim (Option-cases (get x cpus)) [
    | inl e ↦ among_lem cpus (range_ids loop (keys cpus)) p x ∙ ground (arith, e)
    | inr (cpu, e) ↦
        among_lem cpus (range_ids loop (keys cpus)) p x
        ∙ ground (
          arith,
          e,
          elem-SameItems _ (keys cpus) (range_ids-SameItems loop (keys cpus)) x,
          get-none_of_absent x cpus,
        )
  ]

  -- On a machine whose CPUs are stored under their own ids, and whose packages are not known yet,
  -- discoverPackages does not panic, changes nothing but the packages, and stores each once, under
  -- its own id, holding exactly the CPUs whose records name it: whatever the order of the loop, no CPU
  -- is left out, and none is in two packages.
  pub discover_packages_lem :
      (sys : System)
      → sys.packages ≡ none
      → IsFiled (entries sys.cpus)
      → (pkgs : GoMap ℤ Package) × (discover_packages sys
          ≡ some (record sys { packages = some pkgs }))
        × Distinct (keys pkgs)
        × ((p : ℤ) (pkg : Package) → get p pkgs ≡ some pkg → pkg.id ≡ p)
        × ((p x : ℤ) → listed pkgs p x ≡ belongs (entries sys.cpus) p x)
  unfolding discover_packages get
  discover_packages_lem sys unknown own =
      let cpus = entries sys.cpus in
      let order = range_ids "discoverPackages" (keys cpus) in
      let (pkgs, e, made, h) = file_cpus_lem cpus order [] own nothing-AllMade in
      (
        pkgs,
        rw (unknown, discover_packages) (rw (e, discover_packages) refl),
        made.0,
        λ p pkg r. (made.1 p pkg r).0,
        λ p x. ground (arith, h p x, among_all cpus "discoverPackages" p x),
      )
