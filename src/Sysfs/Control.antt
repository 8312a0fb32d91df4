-- ===== src/Sysfs/Control.antt =====
-- pkg/sysfs/system.go: `SetCpusOnline` and the frequency limits. The files under /sys are not part
-- of the model: what a write to the entry of a CPU meets is an argument.
use cpu_policy_plugins_for_k.Prelude.{
  ℕ, ◌/◌, Bool, true, false, not, ◌&&◌, List, [], ◌∷◌, Option, none, some, String, ltb, nat_beq,
  ◌==◌, if◌then◌else◌,
}
use cpu_policy_plugins_for_k.Prelude.GoMap.{get, put}
use cpu_policy_plugins_for_k.Prelude.Int.{ℤ, pos, int_eq, leb_ℤ}
use cpu_policy_plugins_for_k.Prelude.Outcome.{Outcome, ok, err, panic}
use cpu_policy_plugins_for_k.Errors.{Error, sysfs_error}
use cpu_policy_plugins_for_k.Runtime.{GoRuntime}
use cpu_policy_plugins_for_k.Sysfs.{
  IdSet, nil_set, id_set, add, del, store_id, members, System, Cpu, entries, cpu_ids, new_id_set,
}

-- `map[bool]int{false: 0, true: 1}[online]`
abbrev pub desired : Bool → ℤ
desired false = pos 0
desired true = pos 1

-- Bring the records in line with a CPU that has changed state. `Add` to a nil set panics.
unfoldable pub note_state : Bool → ℤ → System → Option System
note_state online id sys = elim (get id (entries sys.cpus)) [
  | none ↦ some sys
  | some cpu ↦
      let cpus = put id (record cpu { online = online }) (entries sys.cpus) in
      if online
      then some (record sys { cpus = some cpus; offline = (del sys.offline id).0 })
      else elim (add sys.offline id) [
        | none ↦ none
        | some (offline, was) ↦ some (record sys { cpus = some cpus; offline = offline })
      ]
]

-- The loop over the entries. An entry is given by the id at its end, and `write id` is what the
-- write to its file `online` meets: the value that stood there, or an error.
unfoldable pub set_online_loop :
    (ℤ → Outcome Error ℤ) → Bool → List ℤ → List ℤ → System → System × Outcome Error IdSet
set_online_loop write online [] changed sys = (sys, ok (id_set changed))
set_online_loop write online (id ∷ rest) changed sys =
    if leb_ℤ id (pos 0) then set_online_loop write online rest changed sys else elim (write id) [
      | err e ↦ (sys, err (sysfs_error "online"))
      | panic ↦ (sys, panic)
      | ok current ↦
          if current == desired online
          then set_online_loop write online rest changed sys
          else elim (note_state online id sys) [
            | none ↦ (sys, panic)
            | some noted ↦ set_online_loop write online rest (store_id id changed) noted
          ]
    ]

module _ ⦃g : GoRuntime⦄ where
  -- `SetCpusOnline(online, cpus)`; the nil set stands for every entry that a glob finds.
  unfoldable pub set_cpus_online :
      (ℤ → Outcome Error ℤ) → List ℤ → Bool → IdSet → System → System × Outcome Error IdSet
  set_cpus_online write found online nil_set sys = set_online_loop write online found [] sys
  set_cpus_online write found online (id_set xs) sys =
      set_online_loop write online (members (id_set xs)) [] sys

-- The values that `SetFrequencyLimits(min, max)` writes, in kHz; a CPU with no known minimum is
-- left alone.
unfoldable pub frequency_limits : Cpu → ℕ → ℕ → Option (ℕ × ℕ)
frequency_limits cpu min_hz max_hz =
    let low = cpu.freq.min in
    let high = cpu.freq.max in
    let min_0 = min_hz / 1000 in
    let max_0 = max_hz / 1000 in
    let min_1 = if ltb min_0 low && not (nat_beq min_0 0) then low else min_0 in
    let min_2 = if ltb high min_1 then high else min_1 in
    let max_1 = if ltb max_0 low && not (nat_beq max_0 0) then low else max_0 in
    let max_2 = if ltb high max_1 then high else max_1 in
    if nat_beq low 0 then none else some (min_2, max_2)

-- `Cpu.SetFrequencyLimits`: two writes, the second only after the first. `write` tells how the
-- write of a value to an entry of the CPU ends.
unfoldable pub set_frequency_limits :
    (String → ℤ → ℕ → Outcome Error (Unit {0})) → Cpu → ℕ → ℕ → Outcome Error (Unit {0})
set_frequency_limits write cpu min_hz max_hz = elim (frequency_limits cpu min_hz max_hz) [
  | none ↦ ok tt
  | some (min, max) ↦ elim (write "cpufreq/scaling_min_freq" cpu.id min) [
    | ok done ↦ write "cpufreq/scaling_max_freq" cpu.id max
    | err e ↦ err e
    | panic ↦ panic
  ]
]

limits_loop :
    (String → ℤ → ℕ → Outcome Error (Unit {0})) → ℕ → ℕ → System → List ℤ → Outcome Error (Unit {0})
limits_loop write min max sys [] = ok tt
limits_loop write min max sys (id ∷ rest) =
    let later = limits_loop write min max sys rest in
    elim (get id (entries sys.cpus)) [
      | none ↦ later
      | some cpu ↦ elim (set_frequency_limits write cpu min max) [
        | ok done ↦ later
        | err e ↦ err e
        | panic ↦ panic
      ]
    ]

module _ ⦃g : GoRuntime⦄ where
  -- `SetCpuFrequencyLimits(min, max, cpus)`; the nil set stands for all CPUs.
  unfoldable pub set_cpu_frequency_limits :
      (String → ℤ → ℕ → Outcome Error (Unit {0}))
      → ℕ
      → ℕ
      → IdSet
      → System
      → Outcome Error (Unit {0})
  unfolding limits_loop
  set_cpu_frequency_limits write min max nil_set sys =
      limits_loop write min max sys (members (new_id_set (cpu_ids sys)))
  set_cpu_frequency_limits write min max (id_set xs) sys =
      limits_loop write min max sys (members (id_set xs))
