-- ===== src/Sysfs/Entries.antt =====
-- pkg/sysfs/utils.go: the files under /sys are read and parsed. The type switch on the pointer is
-- the parser that a caller hands over; `args`, the separator. A parser gets the old value as well.
use Prim.Native.String.{String, ◌++◌ as append}
use cpu_policy_plugins_for_k.Prelude.{
  ℕ, zero, suc, ◌+◌, ◌*◌, ◌-◌, ◌%◌, ◌^◌, Bool, true, false, ◌&&◌, List, [], ◌∷◌, Option, none, some,
  ltb, leb, nat_beq, if◌then◌else◌,
}
use cpu_policy_plugins_for_k.Prelude.Int.{ℤ, pos, negsuc, ◌+ℤ◌, ◌-ℤ◌, leb_ℤ, pos_part, two_63}
use cpu_policy_plugins_for_k.Prelude.Outcome.{Outcome, ok, err, panic}
use cpu_policy_plugins_for_k.Errors.{Error, sysfs_error, endless_loop}
use cpu_policy_plugins_for_k.Config.Frequency.{bytes, parse_uint, uint_digits}
use cpu_policy_plugins_for_k.Procfs.Text.{split, trim}
use cpu_policy_plugins_for_k.Sysfs.Sets.{IdSet, id_set, store_all}

-- The bytes of a text from its end on.
reversed : List ℕ → List ℕ → List ℕ
reversed [] acc = acc
reversed (c ∷ cs) acc = reversed cs (c ∷ acc)

-- The loop of `getEnumeratedId`, from the last byte down to the second: the first is never read.
unfoldable pub enumerated_loop : ℕ → ℕ → List ℕ → ℤ
enumerated_loop id base [] = negsuc 0
enumerated_loop id base (c ∷ []) = negsuc 0
enumerated_loop id base (c ∷ d ∷ cs) =
    let more = enumerated_loop (id + base * (c - 48)) (base * 10) (d ∷ cs) in
    if leb 48 c && leb c 57 then more else if ltb 1 base then pos id else negsuc 0

-- `getEnumeratedId(name)`
unfoldable pub get_enumerated_id : String → ℤ
unfolding enumerated_loop reversed
get_enumerated_id name = enumerated_loop 0 1 (reversed (bytes name) [])

-- A sign in front of a magnitude, within 64 bits: none for an error of package strconv.
abbrev pub positive64 : Option ℕ → Option ℤ
positive64 none = none
positive64 (some n) = if ltb n two_63 then some (pos n) else none

abbrev pub negative64 : Option ℕ → Option ℤ
negative64 none = none
negative64 (some n) = if leb n two_63 then some (pos 0 -ℤ pos n) else none

unfoldable pub with_sign : (List ℕ → Option ℕ) → List ℕ → Option ℤ
with_sign magnitude [] = none
with_sign magnitude (c ∷ cs) =
    if nat_beq c 45
    then negative64 (magnitude cs)
    else if nat_beq c 43
    then positive64 (magnitude cs)
    else positive64 (magnitude (c ∷ cs))

-- The digits of a decimal number, at least one.
unfoldable pub decimal_digits : List ℕ → Option ℕ
unfolding uint_digits
decimal_digits [] = none
decimal_digits (c ∷ cs) = uint_digits 10 0 (c ∷ cs)

-- `strconv.ParseInt(s, 0, 0)` and `strconv.Atoi(s)`
unfoldable pub parse_int : String → Option ℤ
unfolding with_sign parse_uint
parse_int s = with_sign parse_uint (bytes s)

unfoldable pub atoi : String → Option ℤ
unfolding with_sign decimal_digits
atoi s = with_sign decimal_digits (bytes s)

-- The integer types that a pointer or a slice may have.
pub data IntKind : Type 0 where
  int_kind int8_kind int16_kind int32_kind int64_kind : IntKind
  uint_kind uint8_kind uint16_kind uint32_kind uint64_kind : IntKind

-- The low bits of an integer, w of them, and what they stand for in two's complement.
unfoldable pub low_bits : ℕ → ℤ → ℕ
low_bits w (pos n) = n % 2 ^ w
low_bits w (negsuc n) = 2 ^ w - 1 - n % 2 ^ w

unfoldable pub two_complement : ℕ → ℕ → ℤ
two_complement w n = if ltb (n * 2) (2 ^ w) then pos n else pos n -ℤ pos (2 ^ w)

-- The conversion of a value of 64 bits to a type.
unfoldable pub convert : IntKind → ℤ → ℤ
unfolding low_bits two_complement
convert int8_kind v = two_complement 8 (low_bits 8 v)
convert int16_kind v = two_complement 16 (low_bits 16 v)
convert int32_kind v = two_complement 32 (low_bits 32 v)
convert uint8_kind v = pos (low_bits 8 v)
convert uint16_kind v = pos (low_bits 16 v)
convert uint32_kind v = pos (low_bits 32 v)
convert _ v = v

abbrev pub is_signed : IntKind → Bool
is_signed int_kind = true
is_signed int8_kind = true
is_signed int16_kind = true
is_signed int32_kind = true
is_signed int64_kind = true
is_signed _ = false

abbrev pub unsigned : Option ℕ → Option ℤ
unsigned none = none
unsigned (some n) = some (pos n)

-- A number in the format of its type, before the conversion.
unfoldable pub parse_number : IntKind → String → Option ℤ
unfolding parse_int parse_uint
parse_number kind s = if is_signed kind then parse_int s else unsigned (parse_uint (bytes s))

-- What `parseValue` stores: nothing for `*int64`, which the inner switch has no case for.
unfoldable pub stored_value : IntKind → ℤ → ℤ → ℤ
unfolding convert
stored_value int64_kind old v = old
stored_value kind old v = convert kind v

-- How parsing ends: with a value, with an error, or never.
pub data Parsed (A : Type 0) : Type 0 where
  parsed : A → Parsed A
  malformed : Parsed A
  endless : Parsed A

abbrev pub parsed_if_some : {A : Type 0} → Option A → Parsed A
parsed_if_some none = malformed
parsed_if_some (some a) = parsed a

-- `parseValue(str, value)` for a pointer to an id and to an integer
unfoldable pub parse_id : String → ℤ → Parsed ℤ
unfolding parse_int
parse_id s old = parsed_if_some (parse_int s)

unfoldable pub parse_value : IntKind → String → ℤ → Parsed ℤ
unfolding parse_number stored_value
parse_value kind s old = elim (parse_number kind s) [
  | none ↦ malformed
  | some v ↦ parsed (stored_value kind old v)
]

-- The ids of a range, one after the other, below the largest `int`.
unfoldable pub count_up : ℕ → ℤ → List ℤ
count_up zero beg = []
count_up (suc n) beg = beg ∷ count_up n (beg +ℤ pos 1)

abbrev pub max_int : ℕ
max_int = two_63 - 1

-- The loop `for id := beg; id <= end; id++`, both ends included. If the end is the largest `int`,
-- no id is above it: the id wraps around, and the loop never ends.
unfoldable pub range_of : ℤ → ℤ → Parsed (List ℤ)
unfolding count_up
range_of beg end =
    if leb_ℤ beg end
    then if leb_ℤ (pos max_int) end
      then endless
      else parsed (count_up (suc (pos_part (end -ℤ beg))) beg)
    else parsed []

-- A piece of a list of ids: an id, or a range; the pieces behind a second dash are not looked at.
unfoldable pub id_range : String → List String → Parsed (List ℤ)
unfolding range_of
id_range s (first ∷ last ∷ more) = elim (atoi first) [
  | none ↦ malformed
  | some beg ↦ elim (atoi last) [ none ↦ malformed | some end ↦ range_of beg end ]
]
id_range s _ = elim (atoi s) [ none ↦ malformed | some id ↦ parsed (id ∷ []) ]

-- The loop over the pieces, for an `IdSet`.
unfoldable pub parse_ids : List String → List ℤ → Parsed (List ℤ)
unfolding id_range
parse_ids [] acc = parsed acc
parse_ids (s ∷ rest) acc = elim (id_range s (split 45 s)) [
  | malformed ↦ malformed
  | endless ↦ endless
  | parsed ids ↦ parse_ids rest (store_all ids acc)
]

-- The loop over the pieces, for a slice.
unfoldable pub parse_numbers : IntKind → List String → Option (List ℤ)
unfolding parse_number convert
parse_numbers kind [] = some []
parse_numbers kind (s ∷ rest) =
    let later = parse_numbers kind rest in
    elim (parse_number kind s) [
      | none ↦ none
      | some v ↦ elim later [ none ↦ none | some vs ↦ some (convert kind v ∷ vs) ]
    ]

-- `parseValueList(str, sep, valuep)` for an `IdSet` and for a slice
unfoldable pub parse_id_set : ℕ → String → IdSet → Parsed IdSet
unfolding parse_ids split
parse_id_set sep str old = elim (parse_ids (split sep str) []) [
  | malformed ↦ malformed
  | endless ↦ endless
  | parsed ids ↦ parsed (id_set ids)
]

unfoldable pub parse_slice : IntKind → ℕ → String → List ℤ → Parsed (List ℤ)
unfolding parse_numbers split
parse_slice kind sep str old = parsed_if_some (parse_numbers kind (split sep str))

-- What an entry comes to. A loop that never ends leaves no outcome: `endless_loop` stands for it.
abbrev pub outcome_of : {A : Type 0} → String → Parsed A → Outcome Error A
outcome_of entry (parsed new) = ok new
outcome_of entry malformed = err (sysfs_error entry)
outcome_of entry endless = err endless_loop

abbrev pub newline : ℕ → Bool
newline c = nat_beq c 10

-- `filepath.Join(base, entry)` for paths that are clean
abbrev pub join_path : String → String → String
join_path base entry = append base (append "/" entry)

-- `readSysfsEntry(base, entry, ptr)`: the new value behind the pointer, which an error leaves alone.
unfoldable pub read_sysfs_entry :
    {A : Type 0}
    → (String → Outcome Error String)
    → (String → A → Parsed A)
    → String
    → String
    → A
    → Outcome Error A
unfolding trim
read_sysfs_entry read_file parser base entry old = elim (read_file (join_path base entry)) [
  | err e ↦ err (sysfs_error entry)
  | panic ↦ panic
  | ok blob ↦ outcome_of entry (parser (trim newline blob) old)
]
