-- ===== src/Allocator/DiscoveredTests.antt =====
-- Allocating on the small machine of Sysfs.DiscoveryTests, with its CPUs online to begin with.
use cpu_policy_plugins_for_k.Prelude.{
  zero, suc, ◌≡◌, refl, List, [], ◌∷◌, some, elem, string_eq, true, arith,
}
use cpu_policy_plugins_for_k.Prelude.GoMap.{get, keys}
use cpu_policy_plugins_for_k.Prelude.Int.{ℤ, pos, negsuc, int_eq}
use cpu_policy_plugins_for_k.Prelude.Outcome.{Outcome, ok}
use cpu_policy_plugins_for_k.Errors.{Error}
use cpu_policy_plugins_for_k.Sysfs.{System, entries, id_set, nil_set}
use cpu_policy_plugins_for_k.Sysfs.Discovery.{discover_system, flags_after, flags_asked}
use cpu_policy_plugins_for_k.Sysfs.DiscoveryTests.{
  files, read_file, glob, contents_calm, program as reading,
}
use cpu_policy_plugins_for_k.Allocator.{allocate_cpus, online_core}
use cpu_policy_plugins_for_k.Allocator.Topology.{Online}
use cpu_policy_plugins_for_k.Allocator.Partition.{Splits}
use cpu_policy_plugins_for_k.Allocator.Tests.{sets, runtime, program}
use cpu_policy_plugins_for_k.Allocator.Discovered.{HasThreads, allocate_cpus-discover_system}

-- A write to a CPU finds it online.
abbrev was_online : ℤ → Outcome Error ℤ
was_online id = ok (pos 1)

abbrev both : List ℤ
both = pos 0 ∷ pos 1 ∷ []

abbrev machine : System
machine = record {
  flags = 1;
  path = "/sys";
  packages = some (
      (
        pos 0,
        record { id = pos 0; cpus = id_set (pos 1 ∷ pos 0 ∷ []); nodes = id_set (pos 0 ∷ []) },
      )
      ∷ []);
  nodes = some (
      (
        pos 0,
        record {
          path = "/sys/devices/system/node/node0";
          id = pos 0;
          cpus = id_set (pos 1 ∷ pos 0 ∷ []);
          distance = pos 10 ∷ pos 20 ∷ [];
          memory = nil_set;
        },
      )
      ∷ []);
  cpus = some (
      (
        pos 0,
        record {
          path = "/sys/devices/system/cpu/cpu0";
          id = pos 0;
          pkg = pos 0;
          node = pos 0;
          threads = id_set (pos 1 ∷ pos 0 ∷ []);
          freq = record { min = 800000; max = 3000000 };
          online = true;
        },
      )
      ∷ (
        pos 1,
        record {
          path = "/sys/devices/system/cpu/cpu1";
          id = pos 1;
          pkg = pos 0;
          node = pos 0;
          threads = id_set (pos 1 ∷ pos 0 ∷ []);
          freq = record { min = 0; max = 0 };
          online = true;
        },
      )
      ∷ []);
  offline = id_set [];
}

found : discover_system read_file glob was_online was_online [] ≡ ok machine
unfolding reading
found = refl

online_thread :
    (i : ℤ)
    → elem i (keys (entries machine.cpus)) ≡ true
    → (x : ℤ) × (sets.contains (online_core machine i) x ≡ true)
unfolding program
online_thread (pos zero) m = (pos 0, refl)
online_thread (pos (suc zero)) m = (pos 0, refl)
online_thread (pos (suc (suc n))) m = absurd (ground arith)
online_thread (negsuc n) m = absurd (ground arith)

machine-HasThreads : HasThreads machine
unfolding program
machine-HasThreads = record {
  threads_agree = record { same = λ i j x h. ground arith };
  core_online = online_thread;
}

both-Online : Online machine both
unfolding program
both-Online x h = (ground arith, ground arith)

allocate_cpus-discover_system_example : Splits both 1 (allocate_cpus (some machine) both (pos 1))
unfolding flags_after flags_asked
allocate_cpus-discover_system_example =
    allocate_cpus-discover_system read_file glob was_online was_online [] machine both 1
      (λ path. contents_calm (get path files)) (λ id e. ground arith) (λ id e. ground arith) refl
      found machine-HasThreads both-Online (omega arith)
