-- ===== src/Config/Frequency.antt =====
-- cmd/cpu-pool-policy/pool/config.go: `parseCpuFreq`, on the bytes of a text.
use Prim.Native.Char.{code}
use Prim.Native.String.{String}
use cpu_policy_plugins_for_k.Prelude.{
  ℕ, ◌+◌, ◌*◌, ◌-◌, ◌%◌, Bool, ◌&&◌, ◌||◌, Option, none, some, List, [], ◌∷◌, ltb, leb, nat_beq,
  if◌then◌else◌, length,
}
use cpu_policy_plugins_for_k.Prelude.Int.{two_64}

-- The codes of a text: its bytes, where it is ASCII.
abbrev pub bytes : String → List ℕ
bytes String.[] = []
bytes (String.◌∷◌ c rest) = code c ∷ bytes rest

-- The value of a digit, in bases up to 36.
unfoldable pub digit : ℕ → Option ℕ
digit c =
    if leb 48 c && leb c 57
    then some (c - 48)
    else if leb 97 c && leb c 122
    then some (c - 87)
    else if leb 65 c && leb c 90
    then some (c - 55)
    else none

-- `strconv.ParseUint` from where its base is known: none for its error, on a wrong digit or a value
-- of more than 64 bits.
unfoldable pub uint_digits : ℕ → ℕ → List ℕ → Option ℕ
uint_digits base n [] = some n
uint_digits base n (c ∷ cs) = elim (digit c) [
  | none ↦ none
  | some d ↦
      let next = n * base + d in
      let more = uint_digits base next cs in if ltb d base && ltb next two_64 then more else none
]

-- `strconv.ParseUint(s, 0, 64)`: the prefixes `0x` and `0` set the base.
unfoldable pub parse_uint : List ℕ → Option ℕ
parse_uint [] = none
parse_uint (c ∷ []) = uint_digits 10 0 (c ∷ [])
parse_uint (c ∷ d ∷ cs) =
    if nat_beq c 48 && (nat_beq d 120 || nat_beq d 88)
    then (if nat_beq (length cs) 0 then none else uint_digits 16 0 cs)
    else if nat_beq c 48
    then uint_digits 8 0 (d ∷ cs)
    else uint_digits 10 0 (c ∷ d ∷ cs)

-- `k`, `M` or `G`
abbrev pub is_unit : ℕ → Bool
is_unit c = nat_beq c 107 || nat_beq c 77 || nat_beq c 71

-- The text before the last unit letter, and from it on.
unfoldable pub split_at_unit : List ℕ → Option (List ℕ × List ℕ)
split_at_unit [] = none
split_at_unit (c ∷ cs) = elim (split_at_unit cs) [
  | some (value, unit) ↦ some (c ∷ value, unit)
  | none ↦ if is_unit c then some ([], c ∷ cs) else none
]

-- The table of units: a letter alone, or with `Hz`.
unfoldable pub letter_base : ℕ → Option ℕ
letter_base c =
    if nat_beq c 107
    then some 1000
    else if nat_beq c 77
    then some 1000000
    else if nat_beq c 71
    then some 1000000000
    else none

unfoldable pub unit_base : List ℕ → Option ℕ
unit_base (c ∷ []) = letter_base c
unit_base (c ∷ h ∷ z ∷ []) = if nat_beq h 72 && nat_beq z 122 then letter_base c else none
unit_base _ = none

-- `parseCpuFreq`: none for its error. The product is a `uint64`, and wraps around.
unfoldable pub parse_freq : List ℕ → Option ℕ
parse_freq [] = some 0
parse_freq (c ∷ cs) = elim (split_at_unit (c ∷ cs)) [
  | none ↦ parse_uint (c ∷ cs)
  | some (value, unit) ↦ elim (unit_base unit) [
    | none ↦ none
    | some base ↦ elim (parse_uint value) [ none ↦ none | some n ↦ some (n * base % two_64) ]
  ]
]

unfoldable pub parse_cpu_freq : String → Option ℕ
unfolding parse_freq
parse_cpu_freq freq = parse_freq (bytes freq)
