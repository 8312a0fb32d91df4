-- ===== src/Allocator/Tests.antt =====
-- pkg/cpuallocator: runs on a small machine, and the theorems at concrete inputs. Package 0 is one
-- core with the hyperthreads 0 and 1, package 1 one core with the thread 2.
use cpu_policy_plugins_for_k.Prelude.{
  ℕ, zero, suc, ◌≡◌, refl, true, List, [], ◌∷◌, none, some, arith, elem,
}
use cpu_policy_plugins_for_k.Prelude.GoMap.{get, keys}
use cpu_policy_plugins_for_k.Prelude.Int.{ℤ, pos, negsuc, int_eq, ◌-ℤ◌}
use cpu_policy_plugins_for_k.Prelude.Outcome.{ok}
use cpu_policy_plugins_for_k.Cpuset.{Cpusets}
use cpu_policy_plugins_for_k.Cpuset.SortedList.{sorted_lists}
use cpu_policy_plugins_for_k.Runtime.{GoRuntime}
use cpu_policy_plugins_for_k.Runtime.Insertion.{insertion}
use cpu_policy_plugins_for_k.Sysfs.{
  System, Package, Cpu, entries, id_set, package_at, cpu_at, package_ids, cpu_ids, thread_cpuset,
  package_cpus, offlined, cpuset_of,
}
use cpu_policy_plugins_for_k.Allocator.{
  pick, new_cpu_allocator, package_cpuset, core_cpuset, online_package, online_core, is_idle,
  take_set, take_fitting, take_each, is_first, first_of_idle_core, filter_panics, package_of,
  preferred, prefer, packages_known, take_idle_packages, take_idle_cores, take_idle_threads,
  after_threads, after_cores, allocate, allocate_cpus, release_cpus,
}
use cpu_policy_plugins_for_k.Allocator.Topology.{IsWellFormed, Online}
use cpu_policy_plugins_for_k.Allocator.Partition.{Splits, allocate_cpus-Splits, release_cpus-Splits}
use cpu_policy_plugins_for_k.Allocator.Cache.{
  SysfsSingleton, Agrees, ThreadsAgree, cached_core_cpuset, cached_core_cpuset_lem,
}

instance abbrev pub sets : Cpusets
sets = sorted_lists []

instance abbrev pub runtime : GoRuntime
runtime = insertion

abbrev cpu : ℕ → ℕ → List ℤ → Cpu
cpu id pkg threads = record {
  path = "";
  id = pos id;
  pkg = pos pkg;
  node = pos 0;
  threads = id_set threads;
  freq = record { min = 800000; max = 3000000 };
  online = true;
}

abbrev package_with : ℕ → List ℤ → Package
package_with id cpus = record { id = pos id; cpus = id_set cpus; nodes = id_set (pos 0 ∷ []) }

abbrev pub machine : System
machine = record {
  flags = 1;
  path = "/sys";
  packages =
      some
        ((pos 0, package_with 0 (pos 0 ∷ pos 1 ∷ [])) ∷ (pos 1, package_with 1 (pos 2 ∷ [])) ∷ []);
  nodes = none;
  cpus = some (
      (pos 0, cpu 0 0 (pos 0 ∷ pos 1 ∷ []))
      ∷ (pos 1, cpu 1 0 (pos 0 ∷ pos 1 ∷ []))
      ∷ (pos 2, cpu 2 1 (pos 2 ∷ []))
      ∷ []);
  offline = id_set [];
}

unfoldable pub program : Unit {0}
unfolding pick new_cpu_allocator package_cpuset core_cpuset online_package online_core is_idle
    take_set take_fitting take_each is_first first_of_idle_core filter_panics package_of preferred
    prefer packages_known take_idle_packages take_idle_cores take_idle_threads after_threads
    after_cores allocate allocate_cpus release_cpus package_at cpu_at package_ids cpu_ids
    thread_cpuset package_cpus offlined cpuset_of get ◌-ℤ◌
program = tt

abbrev pub all_three : List ℤ
all_three = pos 0 ∷ pos 1 ∷ pos 2 ∷ []

-- A whole package where one fits, else a whole core, else threads.
take_one_of_three :
    allocate_cpus (some machine) all_three (pos 1) ≡ (pos 0 ∷ pos 1 ∷ [], ok (pos 2 ∷ []))
unfolding program
take_one_of_three = refl

take_two_of_three :
    allocate_cpus (some machine) all_three (pos 2) ≡ (pos 2 ∷ [], ok (pos 0 ∷ pos 1 ∷ []))
unfolding program
take_two_of_three = refl

take_a_thread :
    allocate_cpus (some machine) (pos 0 ∷ pos 1 ∷ []) (pos 1) ≡ (pos 1 ∷ [], ok (pos 0 ∷ []))
unfolding program
take_a_thread = refl

known_package :
    (i : ℤ)
    → elem i (keys (entries machine.cpus)) ≡ true
    → (p : ℤ) × (q : Package) × (package_of machine i ≡ some p) × (package_at machine p ≡ some q)
unfolding program
known_package (pos zero) m = (pos 0, package_with 0 (pos 0 ∷ pos 1 ∷ []), refl, refl)
known_package (pos (suc zero)) m = (pos 0, package_with 0 (pos 0 ∷ pos 1 ∷ []), refl, refl)
known_package (pos (suc (suc zero))) m = (pos 1, package_with 1 (pos 2 ∷ []), refl, refl)
known_package (pos (suc (suc (suc n)))) m = absurd (ground arith)
known_package (negsuc n) m = absurd (ground arith)

online_thread :
    (i : ℤ)
    → elem i (keys (entries machine.cpus)) ≡ true
    → (x : ℤ) × (sets.contains (online_core machine i) x ≡ true)
unfolding program
online_thread (pos zero) m = (pos 0, refl)
online_thread (pos (suc zero)) m = (pos 0, refl)
online_thread (pos (suc (suc zero))) m = (pos 2, refl)
online_thread (pos (suc (suc (suc n)))) m = absurd (ground arith)
online_thread (negsuc n) m = absurd (ground arith)

pub machine-IsWellFormed : IsWellFormed machine
unfolding program
machine-IsWellFormed = record {
  cpus_distinct = λ a. ground arith;
  packages_distinct = λ a. ground arith;
  packages_apart = λ i j ne x. ground arith;
  siblings_agree = λ i j x p q y. ground arith;
  package_known = known_package;
  core_online = online_thread;
}

pub all_three-Online : Online machine all_three
unfolding program
all_three-Online x h = (ground arith, ground arith)

allocate_cpus-Splits_example : Splits all_three 1 (allocate_cpus (some machine) all_three (pos 1))
allocate_cpus-Splits_example =
    allocate_cpus-Splits machine all_three 1 machine-IsWellFormed all_three-Online (omega arith)

release_cpus-Splits_example : Splits all_three 2 (release_cpus (some machine) all_three (pos 1))
release_cpus-Splits_example =
    release_cpus-Splits machine all_three 1 machine-IsWellFormed all_three-Online (omega arith)

abbrev fresh : SysfsSingleton
fresh = record { once = true; sys = some machine; fault = none; pkg = []; node = []; core = [] }

fresh-Agrees : Agrees machine fresh
unfolding get
fresh-Agrees = record { packages = λ i s h. absurd (cc); cores = λ i s h. absurd (cc) }

machine-ThreadsAgree : ThreadsAgree machine
unfolding program
machine-ThreadsAgree = record { same = λ i j x h. ground arith }

cached_core_cpuset_lem_example :
    ((cset : List ℤ) × ((cached_core_cpuset (pos 1) machine fresh).1 ≡ ok cset)
      × ((x : ℤ) → elem x cset ≡ elem x (core_cpuset machine (pos 1))))
    × Agrees machine (cached_core_cpuset (pos 1) machine fresh).0
unfolding program
cached_core_cpuset_lem_example =
    cached_core_cpuset_lem (pos 1) machine (cpu 1 0 (pos 0 ∷ pos 1 ∷ [])) fresh refl
      machine-ThreadsAgree fresh-Agrees
