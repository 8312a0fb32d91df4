-- ===== src/Sysfs/Packages.antt =====
-- pkg/sysfs/system.go: `discoverPackages`, which files the CPUs of a machine by their package.
use cpu_policy_plugins_for_k.Prelude.{Option, none, some, List, [], ◌∷◌}
use cpu_policy_plugins_for_k.Prelude.GoMap.{GoMap, get, put, keys}
use cpu_policy_plugins_for_k.Prelude.Int.{ℤ, int_eq}
use cpu_policy_plugins_for_k.Runtime.{GoRuntime}
use cpu_policy_plugins_for_k.Sysfs.Sets.{id_set, add}
use cpu_policy_plugins_for_k.Sysfs.Machine.{Cpu, Package, System, entries}

-- A package that is not known yet.
abbrev pub fresh_package : ℤ → Package
fresh_package id = record { id = id; cpus = id_set []; nodes = id_set [] }

-- `Add` of a CPU and of its node, through the pointer in the map; none is a write to a nil set.
unfoldable pub add_to_package : Cpu → Package → GoMap ℤ Package → Option (GoMap ℤ Package)
add_to_package cpu pkg pkgs = elim (add pkg.cpus cpu.id) [
  | none ↦ none
  | some (cpus, had_cpu) ↦ elim (add pkg.nodes cpu.node) [
    | none ↦ none
    | some (nodes, had_node) ↦ some (put cpu.pkg (record pkg { cpus = cpus; nodes = nodes }) pkgs)
  ]
]

-- The body of the loop.
unfoldable pub file_cpu : Cpu → GoMap ℤ Package → Option (GoMap ℤ Package)
unfolding add_to_package
file_cpu cpu pkgs = elim (get cpu.pkg pkgs) [
  | none ↦ add_to_package cpu (fresh_package cpu.pkg) pkgs
  | some pkg ↦ add_to_package cpu pkg pkgs
]

-- The loop over the CPUs with these ids.
unfoldable pub file_cpus : GoMap ℤ Cpu → List ℤ → GoMap ℤ Package → Option (GoMap ℤ Package)
unfolding file_cpu
file_cpus cpus [] pkgs = some pkgs
file_cpus cpus (id ∷ rest) pkgs = elim (get id cpus) [
  | none ↦ file_cpus cpus rest pkgs
  | some cpu ↦ elim (file_cpu cpu pkgs) [ none ↦ none | some filed ↦ file_cpus cpus rest filed ]
]

module _ ⦃g : GoRuntime⦄ where
  open g use {range_ids}

  -- `discoverPackages()`, whose error is nil on every return; none is a panic.
  unfoldable pub discover_packages : System → Option System
  unfolding file_cpus
  discover_packages sys = elim sys.packages [
    | some known ↦ some sys
    | none ↦
        let cpus = entries sys.cpus in
        elim (file_cpus cpus (range_ids "discoverPackages" (keys cpus)) []) [
          | none ↦ none
          | some pkgs ↦ some (record sys { packages = some pkgs })
        ]
  ]
