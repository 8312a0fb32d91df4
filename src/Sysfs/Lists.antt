-- ===== src/Sysfs/Lists.antt =====
-- pkg/sysfs/utils.go: lists of ids as the kernel prints them, such as `0-3,8`, are read as the set of
-- the ids that they name.
use Prim.Native.String.{String}
use cpu_policy_plugins_for_k.Prelude.{
  ℕ, zero, suc, ◌+◌, ◌-◌, ◌<◌, ◌≡◌, refl, ap, sym, ◌∙◌, Bool, true, false, not, ◌&&◌, ◌||◌,
  Bool-cases, inl, inr, ◌==◌, some, List, [], ◌∷◌, leb, nat_beq, elem, arith,
}
use cpu_policy_plugins_for_k.Prelude.Int.{
  ℤ, pos, negsuc, int_eq, int_beq_iff, ◌+ℤ◌, ◌-ℤ◌, leb_ℤ, pos_part, two_63,
}
use cpu_policy_plugins_for_k.Config.Frequency.{bytes}
use cpu_policy_plugins_for_k.Config.Decimal.{positional, IsDecimal, if_it_fits, from_zero}
use cpu_policy_plugins_for_k.Procfs.Text.{split}
use cpu_policy_plugins_for_k.Procfs.Words.{
  glue, Without, Without-glue, Without-fewer, IsFilled, split-glue, split-last,
}
use cpu_policy_plugins_for_k.Sysfs.{IdSet, id_set, store_all}
use cpu_policy_plugins_for_k.Sysfs.SetLaws.{elem-store_all}
use cpu_policy_plugins_for_k.Sysfs.Entries.{
  parsed, max_int, atoi, with_sign, decimal_digits, positive64, count_up, range_of, id_range,
  parse_ids, parse_id_set,
}

-- No decimal digit.
abbrev strange : ℕ → Bool
strange c = not (leb 48 c && leb c 57)

-- A decimal number that fits into an `int`.
abbrev pub IsId : String → Type 0
IsId s = IsFilled s × Without strange s × (positional (bytes s) < two_63)

abbrev pub id_of : String → ℕ
id_of s = positional (bytes s)

decimal : (s : String) → Without strange s → IsDecimal (bytes s)
decimal String.[] w = tt
decimal (String.◌∷◌ c s) w = (ground (arith, w.0), ground (arith, w.0), decimal s w.1)

no_comma : (s : String) → Without strange s → Without (nat_beq 44) s
no_comma s w = Without-fewer strange (nat_beq 44) (λ n h. ground arith) s w

no_dash : (s : String) → Without strange s → Without (nat_beq 45) s
no_dash s w = Without-fewer strange (nat_beq 45) (λ n h. ground arith) s w

digits_of :
    (s : String) → IsFilled s → Without strange s → decimal_digits (bytes s) ≡ if_it_fits (id_of s)
unfolding decimal_digits
digits_of String.[] f w = absurd f
digits_of (String.◌∷◌ c s) f w = from_zero (bytes (String.◌∷◌ c s)) (decimal (String.◌∷◌ c s) w)

unsigned_id :
    (s : String) → IsFilled s → Without strange s → atoi s ≡ positive64 (decimal_digits (bytes s))
unfolding atoi with_sign
unsigned_id String.[] f w = absurd f
unsigned_id (String.◌∷◌ c s) f w = ground (arith, w.0)

fitting : (n : ℕ) → n < two_63 → positive64 (if_it_fits n) ≡ some (pos n)
fitting n h = ground arith

atoi-IsId : (s : String) → IsId s → atoi s ≡ some (pos (id_of s))
atoi-IsId s (f, w, small) =
    unsigned_id s f w ∙ ap positive64 (digits_of s f w) ∙ fitting (id_of s) small

-- Whether an id is from one number up to another.
abbrev pub between : ℕ → ℕ → ℤ → Bool
between low high (pos n) = leb low n && leb n high
between low high (negsuc n) = false

next_id : (b : ℕ) → (pos b +ℤ pos 1) ≡ pos (b + 1)
unfolding ◌+ℤ◌
next_id b = ground arith

elem-count_up :
    (n b : ℕ) (x : ℤ) → elem x (count_up n (pos b)) ≡ (not (nat_beq n 0) && between b (b + n - 1) x)
unfolding count_up
elem-count_up zero b x = refl
elem-count_up (suc n) b (pos y) = rw (next_id b) (ground (arith, elem-count_up n (b + 1) (pos y)))
elem-count_up (suc n) b (negsuc y) =
    rw (next_id b) (ground (arith, elem-count_up n (b + 1) (negsuc y)))

width : (a b : ℕ) → pos_part (pos b -ℤ pos a) ≡ b - a
unfolding ◌-ℤ◌
width a b = ground arith

order : (a b : ℕ) → leb_ℤ (pos a) (pos b) ≡ leb a b
order a b = ground arith

below_max : (b : ℕ) → b < max_int → leb_ℤ (pos max_int) (pos b) ≡ false
below_max b h = ground arith

range_up :
    (a b : ℕ)
    → leb a b ≡ true
    → b < max_int
    → range_of (pos a) (pos b) ≡ parsed (count_up (suc (b - a)) (pos a))
unfolding range_of
range_up a b h small =
    rw (order a b ∙ h, range_of) (rw (below_max b small, range_of) (rw (width a b) refl))

range_none : (a b : ℕ) → leb a b ≡ false → range_of (pos a) (pos b) ≡ parsed []
unfolding range_of
range_none a b h = rw (order a b ∙ h) refl

nothing-between : (a b : ℕ) (x : ℤ) → leb a b ≡ false → between a b x ≡ false
nothing-between a b (pos y) h = ground arith
nothing-between a b (negsuc y) h = refl

up_to : (a b : ℕ) → leb a b ≡ true → a + suc (b - a) - 1 ≡ b
up_to a b h = ground arith

not_empty : (n : ℕ) (t : Bool) → (not (nat_beq (suc n) 0) && t) ≡ t
not_empty n t = ground arith

range_of-below :
    (a b : ℕ)
    → b < max_int
    → (xs : List ℤ) × (range_of (pos a) (pos b) ≡ parsed xs) × ((x : ℤ) → elem x xs ≡ between a b x)
range_of-below a b small = elim (Bool-cases (leb a b)) [
  | inl h ↦ (
    count_up (suc (b - a)) (pos a),
    range_up a b h small,
    λ x.
        elem-count_up (suc (b - a)) a x
        ∙ not_empty (b - a) (between a (a + suc (b - a) - 1) x)
        ∙ ap (λ (n : ℕ). between a n x) (up_to a b h),
  )
  | inr h ↦ ([], range_none a b h, λ x. sym (nothing-between a b x h))
]

-- A piece of a list: an id, or the first and the last of a range.
pub data Piece : Type 0 where
  single : String → Piece
  range : String → String → Piece

abbrev pub print_piece : Piece → String
print_piece (single s) = s
print_piece (range a b) = glue a (String.◌∷◌ "-" b)

abbrev pub print_list : Piece → List Piece → String
print_list p [] = print_piece p
print_list p (q ∷ ps) = glue (print_piece p) (String.◌∷◌ "," (print_list q ps))

abbrev pub IsPiece : Piece → Type 0
IsPiece (single s) = IsId s
IsPiece (range a b) = IsId a × IsId b × (id_of b < max_int)

abbrev pub AllPieces : List Piece → Type 0
AllPieces [] = Unit {0}
AllPieces (p ∷ ps) = IsPiece p × AllPieces ps

-- Whether a piece, or one of several, names an id.
abbrev pub names_id : Piece → ℤ → Bool
names_id (single s) x = pos (id_of s) == x
names_id (range a b) x = between (id_of a) (id_of b) x

abbrev pub any_names : List Piece → ℤ → Bool
any_names [] x = false
any_names (p ∷ ps) x = names_id p x || any_names ps x

piece-Without : (p : Piece) → IsPiece p → Without (nat_beq 44) (print_piece p)
piece-Without (single s) (f, w, small) = no_comma s w
piece-Without (range a b) ((f, w, small), (g, v, little), below) =
    Without-glue (nat_beq 44) a (String.◌∷◌ "-" b) (no_comma a w) (refl, no_comma b v)

print_pieces : List Piece → List String
print_pieces [] = []
print_pieces (p ∷ ps) = print_piece p ∷ print_pieces ps

split-print_list :
    (p : Piece) (ps : List Piece)
    → IsPiece p
    → AllPieces ps
    → split 44 (print_list p ps) ≡ print_pieces (p ∷ ps)
unfolding print_pieces
split-print_list p [] h k = split-last 44 (print_piece p) (piece-Without p h)
split-print_list p (q ∷ ps) h k =
    split-glue 44 (print_piece p) "," (print_list q ps) (piece-Without p h) refl
    ∙ ap (λ (more : List String). print_piece p ∷ more) (split-print_list q ps k.0 k.1)

one_id : (s : String) → IsId s → id_range s (s ∷ []) ≡ parsed (pos (id_of s) ∷ [])
unfolding id_range
one_id s h = rw (atoi-IsId s h, id_range) refl

two_ids :
    (s a b : String)
    → IsId a
    → IsId b
    → id_range s (a ∷ b ∷ []) ≡ range_of (pos (id_of a)) (pos (id_of b))
unfolding id_range
two_ids s a b h k = rw (atoi-IsId a h, id_range) (rw (atoi-IsId b k, id_range) refl)

-- A piece is read as the ids that it names.
id_range-IsPiece :
    (p : Piece)
    → IsPiece p
    → (xs : List ℤ) × (id_range (print_piece p) (split 45 (print_piece p)) ≡ parsed xs)
      × ((x : ℤ) → elem x xs ≡ names_id p x)
unfolding id_range
id_range-IsPiece (single s) (f, w, small) = (
  pos (id_of s) ∷ [],
  ap (id_range s) (split-last 45 s (no_dash s w)) ∙ one_id s (f, w, small),
  λ x. ground (arith, int_beq_iff (pos (id_of s)) x),
)
id_range-IsPiece (range a b) ((f, w, small), (g, v, little), below) =
    let (xs, e, read) = range_of-below (id_of a) (id_of b) below in
    (
      xs,
      ap (id_range (print_piece (range a b))) (
            split-glue 45 a "-" b (no_dash a w) refl
            ∙ ap (λ (more : List String). a ∷ more) (split-last 45 b (no_dash b v)))
          ∙ two_ids (print_piece (range a b)) a b (f, w, small) (g, v, little)
          ∙ e,
      read,
    )

parse_ids-pieces :
    (ps : List Piece) (acc : List ℤ)
    → AllPieces ps
    → (xs : List ℤ) × (parse_ids (print_pieces ps) acc ≡ parsed xs)
      × ((x : ℤ) → elem x xs ≡ any_names ps x || elem x acc)
unfolding parse_ids print_pieces
parse_ids-pieces [] acc h = (acc, refl, λ x. refl)
parse_ids-pieces (p ∷ ps) acc (h, k) =
    let (ys, e, read) = id_range-IsPiece p h in
    let (xs, f, later) = parse_ids-pieces ps (store_all ys acc) k in
    (xs, rw (e, parse_ids) f, λ x. ground (arith, later x, read x, elem-store_all x ys acc))

-- A list of ids that is printed from decimal numbers and ranges of them, each of which fits into an
-- `int`, with commas in between, and no range of which goes up to the largest `int`, is read as the
-- set of exactly the ids that it names, whatever set was there before.
pub parse_id_set-print_list :
    (p : Piece) (ps : List Piece) (old : IdSet)
    → AllPieces (p ∷ ps)
    → (xs : List ℤ) × (parse_id_set 44 (print_list p ps) old ≡ parsed (id_set xs))
      × ((x : ℤ) → elem x xs ≡ any_names (p ∷ ps) x)
unfolding parse_id_set
parse_id_set-print_list p ps old (h, k) =
    let (xs, e, read) = parse_ids-pieces (p ∷ ps) [] (h, k) in
    (
      xs,
      rw
          (
            ap (λ (pieces : List String). parse_ids pieces []) (split-print_list p ps h k) ∙ e,
            parse_id_set,
          )
          refl,
      λ x. ground (arith, read x),
    )
