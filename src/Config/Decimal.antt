-- ===== src/Config/Decimal.antt =====
-- cmd/cpu-pool-policy/pool/config.go: what `parseCpuFreq` makes of a decimal number and a unit.
use cpu_policy_plugins_for_k.Prelude.{
  ℕ, ◌+◌, ◌*◌, ◌-◌, ◌%◌, ◌<◌, ◌≤◌, ◌≡◌, refl, false, Option, none, some, List, [], ◌∷◌, ◌++◌, arith,
  ltb, ltb→lt, sym, if◌then◌else◌, Bool-cases, Option-cases, inl, inr, ap, ◌∙◌,
}
use cpu_policy_plugins_for_k.Prelude.Int.{two_64}
use cpu_policy_plugins_for_k.Config.Frequency.{
  digit, uint_digits, parse_uint, split_at_unit, unit_base, parse_freq,
}

-- A number with as many zeros behind it as a text is long.
abbrev pub shifted : ℕ → List ℕ → ℕ
shifted n [] = n
shifted n (c ∷ cs) = shifted (n * 10) cs

-- The value of decimal digits: each at its place.
abbrev pub positional : List ℕ → ℕ
positional [] = 0
positional (c ∷ cs) = shifted (c - 48) cs + positional cs

-- Decimal digits only.
abbrev pub IsDecimal : List ℕ → Type 0
IsDecimal [] = Unit {0}
IsDecimal (c ∷ cs) = (48 ≤ c) × (c ≤ 57) × IsDecimal cs

distribute : (m n : ℕ) → (m + n) * 10 ≡ m * 10 + n * 10
distribute m n = omega arith

shifted-add : (m n : ℕ) (cs : List ℕ) → shifted (m + n) cs ≡ shifted m cs + shifted n cs
shifted-add m n [] = refl
shifted-add m n (c ∷ cs) = rw (distribute m n) (shifted-add (m * 10) (n * 10) cs)

shifted-le : (n : ℕ) (cs : List ℕ) → n ≤ shifted n cs
shifted-le n [] = omega arith
shifted-le n (c ∷ cs) = omega (arith, shifted-le (n * 10) cs)

digit-decimal : (c : ℕ) → 48 ≤ c → c ≤ 57 → digit c ≡ some (c - 48)
unfolding digit
digit-decimal c low high = ground arith

uint_digits_step :
    (n c : ℕ) (cs : List ℕ)
    → 48 ≤ c
    → c ≤ 57
    → uint_digits 10 n (c ∷ cs)
      ≡ (if ltb (n * 10 + (c - 48)) two_64 then uint_digits 10 (n * 10 + (c - 48)) cs else none)
unfolding uint_digits
uint_digits_step n c cs low high = ground (arith, digit-decimal c low high)

-- A value, unless it takes more than 64 bits.
abbrev pub if_it_fits : ℕ → Option ℕ
if_it_fits n = if ltb n two_64 then some n else none

too_large : (n : ℕ) → ltb n two_64 ≡ false → if_it_fits n ≡ none
too_large n h = rw h refl

-- Reading digits on from a number.
uint_digits-decimal :
    (n : ℕ) (cs : List ℕ)
    → IsDecimal cs
    → n < two_64
    → uint_digits 10 n cs ≡ if_it_fits (shifted n cs + positional cs)
unfolding uint_digits
uint_digits-decimal n [] d small = ground arith
uint_digits-decimal n (c ∷ cs) (low, high, d) small =
    let next = n * 10 + (c - 48) in
    let value = shifted (n * 10) cs + (shifted (c - 48) cs + positional cs) in
    let same_value : shifted next cs + positional cs ≡ value =
      omega (arith, shifted-add (n * 10) (c - 48) cs) in
    elim (Bool-cases (ltb next two_64)) [
      | inl fits ↦
          uint_digits_step n c cs low high
          ∙ rw fits (uint_digits-decimal next cs d (ltb→lt next two_64 fits))
          ∙ ap if_it_fits same_value
      | inr over ↦
          uint_digits_step n c cs low high
          ∙ rw over refl
          ∙ sym (too_large value (ground (arith, shifted-le (n * 10) cs, shifted-le (c - 48) cs)))
    ]

-- The first digit of a decimal number is not 0, which would make it octal.
abbrev pub IsNumeral : List ℕ → Type 0
IsNumeral [] = ⊥
IsNumeral (c ∷ cs) = (48 < c) × (c ≤ 57) × IsDecimal cs

parse_uint_numeral :
    (c : ℕ) (cs : List ℕ) → 48 < c → parse_uint (c ∷ cs) ≡ uint_digits 10 0 (c ∷ cs)
unfolding parse_uint
parse_uint_numeral c [] low = refl
parse_uint_numeral c (e ∷ cs) low = ground arith

shifted-zero : (cs : List ℕ) → shifted 0 cs ≡ 0
shifted-zero [] = refl
shifted-zero (c ∷ cs) = shifted-zero cs

pub from_zero : (cs : List ℕ) → IsDecimal cs → uint_digits 10 0 cs ≡ if_it_fits (positional cs)
from_zero cs d =
    uint_digits-decimal 0 cs d (omega arith) ∙ rw (shifted-zero cs) (ap if_it_fits (omega arith))

parse_uint-decimal : (ds : List ℕ) → IsNumeral ds → parse_uint ds ≡ if_it_fits (positional ds)
parse_uint-decimal [] d = absurd d
parse_uint-decimal (c ∷ cs) (low, high, d) =
    parse_uint_numeral c cs low ∙ from_zero (c ∷ cs) (omega arith, high, d)

-- Digits have no unit letter among them.
split-decimal : (ds : List ℕ) → IsDecimal ds → split_at_unit ds ≡ none
unfolding split_at_unit
split-decimal [] d = refl
split-decimal (c ∷ cs) (low, high, d) = rw (split-decimal cs d) (ground arith)

split-append :
    (ds u : List ℕ)
    → IsDecimal ds
    → split_at_unit u ≡ some ([], u)
    → split_at_unit (ds ++ u) ≡ some (ds, u)
unfolding split_at_unit
split-append [] u d e = e
split-append (c ∷ cs) u (low, high, d) e = rw (split-append cs u d e) refl

freq_plain :
    (c : ℕ) (cs : List ℕ)
    → split_at_unit (c ∷ cs) ≡ none
    → parse_freq (c ∷ cs) ≡ parse_uint (c ∷ cs)
unfolding parse_freq
freq_plain c cs e = rw (e, parse_freq) refl

-- The product in 64 bits.
abbrev pub times64 : ℕ → Option ℕ → Option ℕ
times64 base none = none
times64 base (some n) = some (n * base % two_64)

freq_unit :
    (c : ℕ) (cs value u : List ℕ) (base : ℕ)
    → split_at_unit (c ∷ cs) ≡ some (value, u)
    → unit_base u ≡ some base
    → parse_freq (c ∷ cs) ≡ times64 base (parse_uint value)
unfolding parse_freq
freq_unit c cs value u base e f = elim (Option-cases (parse_uint value)) [
  | inl g ↦ rw (e, parse_freq) (rw (f, g) refl)
  | inr (n, g) ↦ rw (e, parse_freq) (rw (f, g) refl)
]

-- A decimal number with no 0 in front is read as its value in Hz, and with a unit behind it as that
-- many thousands, millions or billions, modulo 2 ^ 64; a number of more than 64 bits is refused.
pub parse_freq-decimal :
    (ds u : List ℕ) (base : ℕ)
    → IsNumeral ds
    → split_at_unit u ≡ some ([], u)
    → unit_base u ≡ some base
    → (parse_freq ds ≡ if_it_fits (positional ds))
      × (parse_freq (ds ++ u) ≡ times64 base (if_it_fits (positional ds)))
parse_freq-decimal [] u base d e f = absurd d
parse_freq-decimal (c ∷ cs) u base (low, high, d) e f =
    let plain : IsDecimal (c ∷ cs) = (omega arith, high, d) in
    let number = parse_uint-decimal (c ∷ cs) (low, high, d) in
    (
      freq_plain c cs (split-decimal (c ∷ cs) plain) ∙ number,
      freq_unit c (cs ++ u) (c ∷ cs) u base (split-append (c ∷ cs) u plain e) f
          ∙ ap (times64 base) number,
    )
