-- ===== src/Allocator/FaultTests.antt =====
-- pkg/cpuallocator: the faults of the allocator at concrete inputs, on a machine of three CPUs.
use cpu_policy_plugins_for_k.Prelude.{◌≡◌, refl, false, [], ◌∷◌, some, arith}
use cpu_policy_plugins_for_k.Prelude.Int.{ℤ, pos}
use cpu_policy_plugins_for_k.Prelude.Outcome.{ok, panic}
use cpu_policy_plugins_for_k.Sysfs.{System, id_set}
use cpu_policy_plugins_for_k.Allocator.{allocate_cpus, release_cpus}
use cpu_policy_plugins_for_k.Allocator.Faults.{allocate_cpus_panics, release_cpus_loses}
use cpu_policy_plugins_for_k.Allocator.Tests.{
  sets, runtime, machine, machine-IsWellFormed, program, all_three, all_three-Online,
}

-- The only thread of the CPU 2's core is offline.
abbrev half_off : System
half_off = record machine { offline = id_set (pos 2 ∷ []) }

allocate_cpus_panics_example :
    (allocate_cpus (some half_off) (pos 0 ∷ pos 1 ∷ []) (pos 1)).1 ≡ panic
unfolding program
allocate_cpus_panics_example =
    allocate_cpus_panics half_off (pos 0 ∷ pos 1 ∷ []) 1 (pos 2) (omega arith) refl refl refl

release_cpus_loses_example :
    ((release_cpus (some machine) all_three (pos 5)).1 ≡ ok (sets.new_cpuset []))
    × ((x : ℤ) → sets.contains (release_cpus (some machine) all_three (pos 5)).0 x ≡ false)
release_cpus_loses_example =
    release_cpus_loses machine all_three 5 machine-IsWellFormed all_three-Online (omega arith)
