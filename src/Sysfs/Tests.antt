-- ===== src/Sysfs/Tests.antt =====
-- pkg/sysfs: the theorems about id sets and about setting CPUs online at concrete inputs.
use cpu_policy_plugins_for_k.Prelude.{
  ℕ, ◌*◌, ◌≤◌, ◌≡◌, ◌≢◌, refl, true, false, List, [], ◌∷◌, none, some, arith, elem, ◌==◌,
  if◌then◌else◌, ◌⊎◌,
}
use cpu_policy_plugins_for_k.Prelude.GoMap.{get}
use cpu_policy_plugins_for_k.Prelude.Int.{ℤ, pos, int_eq}
use cpu_policy_plugins_for_k.Prelude.Outcome.{Outcome, ok, err, panic}
use cpu_policy_plugins_for_k.Errors.{Error}
use cpu_policy_plugins_for_k.Runtime.{GoRuntime}
use cpu_policy_plugins_for_k.Runtime.Insertion.{insertion}
use cpu_policy_plugins_for_k.Cpuset.{Ascending}
use cpu_policy_plugins_for_k.Sysfs.{id_set, has, sorted_members, System, Cpu}
use cpu_policy_plugins_for_k.Sysfs.SetLaws.{sorted_members_lem}
use cpu_policy_plugins_for_k.Sysfs.Control.{frequency_limits, set_online_loop}
use cpu_policy_plugins_for_k.Sysfs.ControlLaws.{
  frequency_limits_bounds, OfflineMatches, set_online_loop-OfflineMatches,
}

instance abbrev runtime : GoRuntime
runtime = insertion

abbrev two_ids : List ℤ
two_ids = pos 7 ∷ pos 3 ∷ []

sorted_members_lem_example :
    Ascending (sorted_members (id_set two_ids))
    × ((x : ℤ) → elem x (sorted_members (id_set two_ids)) ≡ has (id_set two_ids) x)
sorted_members_lem_example = sorted_members_lem (id_set two_ids) (λ a. ground arith)

abbrev cpu_1 : Cpu
cpu_1 = record {
  path = "/sys/devices/system/cpu/cpu1";
  id = pos 1;
  pkg = pos 0;
  node = pos 0;
  threads = id_set (pos 1 ∷ []);
  freq = record { min = 800000; max = 3000000 };
  online = true;
}

-- The limits of the CPU, in kHz, and two limits asked for, in Hz.
abbrev low : ℕ
low = 800000

abbrev high : ℕ
high = 3000000

frequency_limits_bounds_example :
    ((low ≡ 0) ⊎ ((cpu_1.freq.min ≤ low) × (low ≤ cpu_1.freq.max)))
    × ((high ≡ 0) ⊎ ((cpu_1.freq.min ≤ high) × (high ≤ cpu_1.freq.max)))
    × (low * 1000 ≤ high * 2000 → low ≤ high)
unfolding frequency_limits
frequency_limits_bounds_example =
    frequency_limits_bounds cpu_1 (low * 1000) (high * 2000) low high (omega arith) refl

abbrev one_cpu : System
one_cpu = record {
  flags = 1;
  path = "/sys";
  packages = none;
  nodes = none;
  cpus = some ((pos 1, cpu_1) ∷ []);
  offline = id_set [];
}

-- The entry 1 was online, the write to the entry 2 fails.
abbrev write : ℤ → Outcome Error ℤ
write id = if id == pos 1 then ok (pos 1) else err (Error.sysfs_error "online")

one_cpu-OfflineMatches : OfflineMatches one_cpu
unfolding get has
one_cpu-OfflineMatches = record {
  made = refl;
  distinct = λ a. ground arith;
  matches = λ id cpu h. ground arith;
}

set_online_loop-OfflineMatches_example :
    OfflineMatches (set_online_loop write false (pos 1 ∷ pos 2 ∷ []) [] one_cpu).0
    × ((set_online_loop write false (pos 1 ∷ pos 2 ∷ []) [] one_cpu).1 ≢ panic)
set_online_loop-OfflineMatches_example =
    set_online_loop-OfflineMatches write false (pos 1 ∷ pos 2 ∷ []) [] one_cpu
      (λ id e. ground arith) one_cpu-OfflineMatches
