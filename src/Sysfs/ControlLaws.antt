-- ===== src/Sysfs/ControlLaws.antt =====
-- pkg/sysfs/system.go: what setting CPUs online or offline does to the records, and that frequency
-- limits stay within the CPU's range.
use cpu_policy_plugins_for_k.Prelude.{
  ℕ, ◌≤◌, ◌≡◌, ◌≢◌, refl, Bool, true, false, not, List, [], ◌∷◌, some, arith, ◌==◌, if◌then◌else◌,
  ap, ◌∙◌, Option-cases, Bool-cases, inl, inr, ◌⊎◌,
}
use cpu_policy_plugins_for_k.Prelude.GoMap.{get, put, get-put}
use cpu_policy_plugins_for_k.Prelude.Int.{ℤ, pos, int_eq, int_beq_iff, leb_ℤ}
use cpu_policy_plugins_for_k.Prelude.Outcome.{Outcome, panic, Outcome-cases}
use cpu_policy_plugins_for_k.Errors.{Error}
use cpu_policy_plugins_for_k.Sysfs.{
  IdSet, nil_set, id_set, ids, has, add, del, store_id, System, Cpu, entries,
}
use cpu_policy_plugins_for_k.Sysfs.SetLaws.{IsSetOfIds, add_lem, del_lem}
use cpu_policy_plugins_for_k.Sysfs.Control.{frequency_limits, set_online_loop, note_state, desired}

-- For a CPU whose lowest frequency is not above its highest, a limit that is written is 0 or lies in
-- the CPU's range, and the order of the two limits that were asked for is kept.
pub frequency_limits_bounds :
    (cpu : Cpu) (min_hz max_hz min max : ℕ)
    → cpu.freq.min ≤ cpu.freq.max
    → frequency_limits cpu min_hz max_hz ≡ some (min, max)
    → ((min ≡ 0) ⊎ ((cpu.freq.min ≤ min) × (min ≤ cpu.freq.max)))
      × ((max ≡ 0) ⊎ ((cpu.freq.min ≤ max) × (max ≤ cpu.freq.max)))
      × (min_hz ≤ max_hz → min ≤ max)
unfolding frequency_limits
frequency_limits_bounds cpu min_hz max_hz min max range e = ground arith

-- The records agree: a CPU is in the set of offline CPUs exactly when it is not marked online.
-- The set is a map that was made, not nil.
pub record OfflineMatches (sys : System) : Type 0 where
  pub made : sys.offline ≡ id_set (ids sys.offline)
  pub distinct : IsSetOfIds sys.offline
  pub matches :
      (id : ℤ) (cpu : Cpu)
      → get id (entries sys.cpus) ≡ some cpu
      → has sys.offline id ≡ not cpu.online

del-made : (s : IdSet) (x : ℤ) → s ≡ id_set (ids s) → (del s x).0 ≡ id_set (ids (del s x).0)
unfolding del
del-made nil_set x e = cc
del-made (id_set xs) x e = ground arith

marked :
    (online : Bool) (id : ℤ) (cpu : Cpu) (sys : System) (offline : IdSet)
    → OfflineMatches sys
    → get id (entries sys.cpus) ≡ some cpu
    → ((y : ℤ) → has offline y ≡ (if id == y then not online else has sys.offline y))
    → (y : ℤ) (other : Cpu)
    → get y (put id (record cpu { online = online }) (entries sys.cpus)) ≡ some other
    → has offline y ≡ not other.online
marked online id cpu sys offline h known e y other at = ground (
  arith,
  e y,
  get-put y id (record cpu { online = online }) (entries sys.cpus),
  h.matches y other,
)

note_state-OfflineMatches :
    (online : Bool) (id : ℤ) (sys : System)
    → OfflineMatches sys
    → (noted : System) × (note_state online id sys ≡ some noted) × OfflineMatches noted
unfolding note_state
note_state-OfflineMatches true id sys h = elim (Option-cases (get id (entries sys.cpus))) [
  | inl e ↦ (sys, rw (e, note_state), h)
  | inr (cpu, e) ↦
      let gone = del_lem sys.offline id h.distinct in
      (
        record sys {
          cpus = some (put id (record cpu { online = true }) (entries sys.cpus));
          offline = (del sys.offline id).0;
        },
        rw (e, note_state),
        record {
          made = del-made sys.offline id h.made;
          distinct = gone.2;
          matches =
              marked true id cpu sys _ h e
                λ y. ground (arith, gone.1 y, int_beq_iff y id, int_beq_iff id y);
        },
      )
]
note_state-OfflineMatches false id sys h = elim (Option-cases (get id (entries sys.cpus))) [
  | inl e ↦ (sys, rw (e, note_state), h)
  | inr (cpu, e) ↦
      let (ys, added, grown, set, sized) = add_lem (ids sys.offline) id h.distinct in
      (
        record sys {
          cpus = some (put id (record cpu { online = false }) (entries sys.cpus));
          offline = id_set ys;
        },
        rw (e, note_state) (rw (ap (λ (t : IdSet). add t id) h.made ∙ added, note_state)),
        record {
          made = refl;
          distinct = set;
          matches =
              marked false id cpu sys (id_set ys) h e
                λ y. ground (arith, grown y, ap (λ (t : IdSet). has t y) h.made);
        },
      )
]

-- `SetCpusOnline` keeps the records in agreement, whatever value or error the writes meet, and does
-- not panic, if no write does.
pub set_online_loop-OfflineMatches :
    (write : ℤ → Outcome Error ℤ) (online : Bool) (cpus changed : List ℤ) (sys : System)
    → ((id : ℤ) → write id ≢ panic)
    → OfflineMatches sys
    → OfflineMatches (set_online_loop write online cpus changed sys).0
      × ((set_online_loop write online cpus changed sys).1 ≢ panic)
unfolding set_online_loop
set_online_loop-OfflineMatches write online [] changed sys calm h = (h, λ e. cc)
set_online_loop-OfflineMatches write online (id ∷ rest) changed sys calm h =
    elim (Bool-cases (leb_ℤ id (pos 0))) [
      | inl skip ↦ rw skip (set_online_loop-OfflineMatches write online rest changed sys calm h)
      | inr try ↦ elim (Outcome-cases (write id)) [
        | inr (inl (e, failed)) ↦ rw (try, failed, set_online_loop) (h, λ q. cc)
        | inr (inr gone) ↦ absurd (calm id gone)
        | inl (current, wrote) ↦ elim (Bool-cases (current == desired online)) [
          | inl same ↦
              rw (try, wrote, set_online_loop)
                (rw same (set_online_loop-OfflineMatches write online rest changed sys calm h))
          | inr other ↦
              let (noted, e, k) = note_state-OfflineMatches online id sys h in
              rw (try, wrote, set_online_loop)
                (rw (other, e, set_online_loop)
                  (set_online_loop-OfflineMatches write online rest (store_id id changed) noted calm
                    k))
        ]
      ]
    ]
