-- ===== src/Sysfs/Stages.antt =====
-- pkg/sysfs/system.go: what holds of the records at each stage of `Discover`, however it ends.
use mathlib.Core.Path.{subst}
use cpu_policy_plugins_for_k.Prelude.{
  ◌≡◌, ◌≢◌, refl, ap, ◌∙◌, sym, Bool, true, false, Bool-cases, Option, none, some, Option-cases,
  inl, inr, List, [], ◌∷◌, Distinct, ◌==◌, arith,
}
use cpu_policy_plugins_for_k.Prelude.GoMap.{get, put, keys, get-put-cases}
use cpu_policy_plugins_for_k.Prelude.Int.{ℤ, pos, int_eq, leb_ℤ}
use cpu_policy_plugins_for_k.Prelude.Outcome.{Outcome, ok, err, panic, ◌>>=◌, after, Outcome-cases}
use cpu_policy_plugins_for_k.Errors.{Error}
use cpu_policy_plugins_for_k.Sysfs.{IdSet, id_set, ids, has, add, store_id, System, Cpu, entries}
use cpu_policy_plugins_for_k.Sysfs.Control.{set_online_loop, note_state, desired}
use cpu_policy_plugins_for_k.Sysfs.ControlLaws.{OfflineMatches, set_online_loop-OfflineMatches}
use cpu_policy_plugins_for_k.Sysfs.Filed.{IsFiled, Distinct-put}

-- How a call ends: in a state with a property, and not in a panic.
abbrev pub Ends : {A : Type 0} → (System → Type 0) → System × Outcome Error A → Type 0
Ends P (sys, ended) = P sys × (ended ≢ panic)

pub after-Ends :
    {A B : Type 0} {P Q : System → Type 0} (x : System × Outcome Error A)
    (f : System → A → System × Outcome Error B)
    → Ends P x
    → ((sys : System) → P sys → Q sys)
    → ((sys : System) (a : A) → P sys → Ends Q (f sys a))
    → Ends Q (after x f)
after-Ends (sys, ok a) f (h, calm) weaker next = next sys a h
after-Ends (sys, err e) f (h, calm) weaker next = (weaker sys h, λ q. cc)
after-Ends (sys, panic) f (h, calm) weaker next = absurd (calm refl)

-- A value with a property, or an error.
pub data Settles {A : Type 0} (P : A → Type 0) : Outcome Error A → Type 0 where
  has_value : (a : A) → P a → Settles P (ok a)
  has_error : (e : Error) → Settles P (err e)

-- How a call ends, if nothing is known of the state that an error leaves.
abbrev pub Gives : {A : Type 0} → (System → Type 0) → System × Outcome Error A → Type 0
Gives P (sys, ok a) = P sys
Gives P (sys, err e) = Unit {0}
Gives P (sys, panic) = ⊥

pub Ends-Gives :
    {A : Type 0} (P : System → Type 0) (x : System × Outcome Error A) → Ends P x → Gives P x
Ends-Gives P (sys, ok a) (h, calm) = h
Ends-Gives P (sys, err e) (h, calm) = tt
Ends-Gives P (sys, panic) (h, calm) = absurd (calm refl)

pub after-Gives :
    {A B : Type 0} (P Q : System → Type 0) (x : System × Outcome Error A)
    (f : System → A → System × Outcome Error B)
    → Gives P x
    → ((sys : System) (a : A) → P sys → Gives Q (f sys a))
    → Gives Q (after x f)
after-Gives P Q (sys, ok a) f h next = next sys a h
after-Gives P Q (sys, err e) f h next = tt
after-Gives P Q (sys, panic) f h next = absurd h

pub bind-Settles :
    {A B : Type 0} {P : A → Type 0} {Q : B → Type 0} {o : Outcome Error A} {f : A → Outcome Error B}
    → Settles P o
    → ((a : A) → P a → Settles Q (f a))
    → Settles Q (o >>= f)
bind-Settles (has_value a p) next = next a p
bind-Settles (has_error e) next = has_error e

pub Settles-calm : {A : Type 0} {P : A → Type 0} {o : Outcome Error A} → Settles P o → o ≢ panic
Settles-calm (has_value a p) = λ q. cc
Settles-calm (has_error e) = λ q. cc

-- While the CPUs are read, and after that.
pub record IsReading (sys : System) : Type 0 where
  pub filed : IsFiled (entries sys.cpus)
  pub distinct : Distinct (keys (entries sys.cpus))
  pub none_offline : sys.offline ≡ id_set []
  pub all_online : (i : ℤ) (cpu : Cpu) → get i (entries sys.cpus) ≡ some cpu → cpu.online ≡ true
  pub unknown : sys.packages ≡ none

pub record IsRead (sys : System) : Type 0 where
  pub filed : IsFiled (entries sys.cpus)
  pub distinct : Distinct (keys (entries sys.cpus))
  pub agree : OfflineMatches sys
  pub unknown : sys.packages ≡ none

pub IsReading-IsRead : (sys : System) → IsReading sys → IsRead sys
unfolding has
IsReading-IsRead sys h = record {
  filed = h.filed;
  distinct = h.distinct;
  agree = record {
    made = h.none_offline ∙ ap (λ (s : IdSet). id_set (ids s)) (sym h.none_offline);
    distinct = rw h.none_offline (λ a. omega arith);
    matches = λ i cpu e. rw (h.none_offline, h.all_online i cpu e) refl;
  };
  unknown = h.unknown;
}

-- A CPU that was read is stored.
pub IsReading-put :
    (sys : System) (cpu : Cpu)
    → IsReading sys
    → cpu.online ≡ true
    → IsReading (record sys { cpus = some (put cpu.id cpu (entries sys.cpus)) })
IsReading-put sys cpu h online = record {
  filed = λ i other e. elim (get-put-cases i cpu.id cpu other (entries sys.cpus) e) [
    | inl (here, is) ↦ ap (λ (c : Cpu). c.id) (sym is) ∙ here
    | inr (apart, found) ↦ h.filed i other found
  ];
  distinct = Distinct-put cpu.id cpu (entries sys.cpus) h.distinct;
  none_offline = h.none_offline;
  all_online = λ i other e. elim (get-put-cases i cpu.id cpu other (entries sys.cpus) e) [
    | inl (here, is) ↦ ap (λ (c : Cpu). c.online) (sym is) ∙ online
    | inr (apart, found) ↦ h.all_online i other found
  ];
  unknown = h.unknown;
}

-- CPUs that are put online while no record is there.
pub set_online_loop-unread :
    (write : ℤ → Outcome Error ℤ) (online : Bool) (cpus changed : List ℤ) (sys : System)
    → ((id : ℤ) → write id ≢ panic)
    → IsReading sys
    → ((i : ℤ) → get i (entries sys.cpus) ≡ none)
    → Ends IsReading (set_online_loop write online cpus changed sys)
unfolding set_online_loop note_state
set_online_loop-unread write online [] changed sys calm h e = (h, λ q. cc)
set_online_loop-unread write online (id ∷ rest) changed sys calm h e =
    let on : (c : List ℤ) → Ends IsReading (set_online_loop write online rest c sys) =
      λ c. set_online_loop-unread write online rest c sys calm h e in
    elim (Bool-cases (leb_ℤ id (pos 0))) [
      | inl skip ↦ rw skip (on changed)
      | inr try ↦ elim (Outcome-cases (write id)) [
        | inr (inl (m, failed)) ↦ rw (try, failed, set_online_loop) (h, λ q. cc)
        | inr (inr gone) ↦ absurd (calm id gone)
        | inl (current, wrote) ↦ elim (Bool-cases (current == desired online)) [
          | inl same ↦ rw (try, wrote, set_online_loop) (rw same (on changed))
          | inr other ↦
              rw (try, wrote, set_online_loop)
                (rw (other, e id, set_online_loop) (on (store_id id changed)))
        ]
      ]
    ]

-- A record that is there is stored again with another state.
restored-IsFiled :
    (id : ℤ) (online : Bool) (cpu : Cpu) (cpus : List (ℤ × Cpu))
    → IsFiled cpus
    → get id cpus ≡ some cpu
    → IsFiled (put id (record cpu { online = online }) cpus)
restored-IsFiled id online cpu cpus own known i other e =
    elim (get-put-cases i id (record cpu { online = online }) other cpus e) [
      | inl (here, is) ↦ ap (λ (c : Cpu). c.id) (sym is) ∙ own id cpu known ∙ here
      | inr (apart, found) ↦ own i other found
    ]

-- What a note of a state keeps.
abbrev IsKept : System → Type 0
IsKept sys = IsFiled (entries sys.cpus) × Distinct (keys (entries sys.cpus)) × (sys.packages ≡ none)

kept :
    (online : Bool) (id : ℤ) (cpu : Cpu) (sys : System)
    → IsKept sys
    → get id (entries sys.cpus) ≡ some cpu
    → IsKept
        (record sys { cpus = some (put id (record cpu { online = online }) (entries sys.cpus)) })
kept online id cpu sys h known = (
  restored-IsFiled id online cpu (entries sys.cpus) h.0 known,
  Distinct-put id (record cpu { online = online }) (entries sys.cpus) h.1,
  h.2,
)

abbrev IsKeptIfAny : Option System → Type 0
IsKeptIfAny none = Unit {0}
IsKeptIfAny (some sys) = IsKept sys

note_state-IsKept :
    (online : Bool) (id : ℤ) (sys : System) → IsKept sys → IsKeptIfAny (note_state online id sys)
unfolding note_state
note_state-IsKept true id sys h = elim (Option-cases (get id (entries sys.cpus))) [
  | inl missing ↦ rw (missing, note_state) h
  | inr (cpu, known) ↦ rw (known, note_state) (kept true id cpu sys h known)
]
note_state-IsKept false id sys h = elim (Option-cases (get id (entries sys.cpus))) [
  | inl missing ↦ rw (missing, note_state) h
  | inr (cpu, known) ↦ elim (Option-cases (add sys.offline id)) [
    | inl failed ↦ rw (known, note_state) (rw (failed, note_state) tt)
    | inr (grown, added) ↦
        rw (known, note_state) (rw (added, note_state) (kept false id cpu sys h known))
  ]
]

set_online_loop-IsKept :
    (write : ℤ → Outcome Error ℤ) (online : Bool) (cpus changed : List ℤ) (sys : System)
    → IsKept sys
    → IsKept (set_online_loop write online cpus changed sys).0
unfolding set_online_loop
set_online_loop-IsKept write online [] changed sys h = h
set_online_loop-IsKept write online (id ∷ rest) changed sys h =
    let on : (c : List ℤ) → IsKept (set_online_loop write online rest c sys).0 =
      λ c. set_online_loop-IsKept write online rest c sys h in
    elim (Bool-cases (leb_ℤ id (pos 0))) [
      | inl skip ↦ rw skip (on changed)
      | inr try ↦ elim (Outcome-cases (write id)) [
        | inr (inl (m, failed)) ↦ rw (try, failed, set_online_loop) h
        | inr (inr gone) ↦ rw (try, gone, set_online_loop) h
        | inl (current, wrote) ↦ elim (Bool-cases (current == desired online)) [
          | inl same ↦ rw (try, wrote, set_online_loop) (rw same (on changed))
          | inr other ↦ elim (Option-cases (note_state online id sys)) [
            | inl none_noted ↦
                rw (try, wrote, set_online_loop) (rw (other, none_noted, set_online_loop) h)
            | inr (noted, e) ↦
                rw (try, wrote, set_online_loop)
                  (rw (other, e, set_online_loop)
                    (set_online_loop-IsKept write online rest (store_id id changed) noted
                      (subst IsKeptIfAny e (note_state-IsKept online id sys h))))
          ]
        ]
      ]
    ]

pub set_online_loop-IsRead :
    (write : ℤ → Outcome Error ℤ) (online : Bool) (cpus changed : List ℤ) (sys : System)
    → ((id : ℤ) → write id ≢ panic)
    → IsRead sys
    → Ends IsRead (set_online_loop write online cpus changed sys)
set_online_loop-IsRead write online cpus changed sys calm h =
    let (agree, ends) = set_online_loop-OfflineMatches write online cpus changed sys calm h.agree in
    let (filed, distinct, unknown) =
      set_online_loop-IsKept write online cpus changed sys (h.filed, h.distinct, h.unknown) in
    (record { filed = filed; distinct = distinct; agree = agree; unknown = unknown }, ends)
