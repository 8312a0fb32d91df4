-- ===== src/Runtime/Insertion.antt =====
-- A runtime that sorts by insertion and visits maps in the order of their entries.
use cpu_policy_plugins_for_k.Prelude.{
  ◌≡◌, refl, Bool, true, false, List, [], ◌∷◌, arith, SameItems, count, if◌then◌else◌, Bool-cases,
  inl, inr,
}
use cpu_policy_plugins_for_k.Prelude.Int.{ℤ, int_eq}
use cpu_policy_plugins_for_k.Runtime.Api.{GoRuntime, StrictWeakOrder, NoneBelow, Sorted}

abbrev pub insert_by : (ℤ → ℤ → Bool) → ℤ → List ℤ → List ℤ
insert_by less x [] = x ∷ []
insert_by less x (y ∷ ys) = if less y x then y ∷ insert_by less x ys else x ∷ y ∷ ys

abbrev pub sort_by : (ℤ → ℤ → Bool) → List ℤ → List ℤ
sort_by less [] = []
sort_by less (x ∷ xs) = insert_by less x (sort_by less xs)

count-insert_by :
    (less : ℤ → ℤ → Bool) (x a : ℤ) (ys : List ℤ) → count a (insert_by less x ys) ≡ count a (x ∷ ys)
count-insert_by less x a [] = refl
count-insert_by less x a (y ∷ ys) = ground (arith, count-insert_by less x a ys)

pub sort_by-SameItems : (less : ℤ → ℤ → Bool) (xs : List ℤ) → SameItems (sort_by less xs) xs
sort_by-SameItems less [] a = refl
sort_by-SameItems less (x ∷ xs) a =
    omega (arith, count-insert_by less x a (sort_by less xs), sort_by-SameItems less xs a)

module _ (less : ℤ → ℤ → Bool) (w : StrictWeakOrder less) where
  asym : (a b : ℤ) → less a b ≡ true → less b a ≡ false
  asym a b h = ground (arith, w.trans a b a h, w.irrefl a)

  -- Not less is transitive.
  not_less_trans : (a b c : ℤ) → less b a ≡ false → less c b ≡ false → less c a ≡ false
  not_less_trans a b c p q = ground (arith, w.incomparable c b a, w.trans c a b, w.trans b c a)

  NoneBelow-weaken :
      (a b : ℤ) (ys : List ℤ) → less b a ≡ false → NoneBelow less b ys → NoneBelow less a ys
  NoneBelow-weaken a b [] h k = tt
  NoneBelow-weaken a b (y ∷ ys) h k = (not_less_trans a b y h k.0, NoneBelow-weaken a b ys h k.1)

  NoneBelow-insert_by :
      (a x : ℤ) (ys : List ℤ)
      → less x a ≡ false
      → NoneBelow less a ys
      → NoneBelow less a (insert_by less x ys)
  NoneBelow-insert_by a x [] h k = (h, tt)
  NoneBelow-insert_by a x (y ∷ ys) h k = ground (arith, NoneBelow-insert_by a x ys h k.1)

  Sorted-insert_by : (x : ℤ) (ys : List ℤ) → Sorted less ys → Sorted less (insert_by less x ys)
  Sorted-insert_by x [] s = (tt, tt)
  Sorted-insert_by x (y ∷ ys) s = elim (Bool-cases (less y x)) [
    | inl before ↦
        rw before (NoneBelow-insert_by y x ys (asym y x before) s.0, Sorted-insert_by x ys s.1)
    | inr here ↦ rw here ((here, NoneBelow-weaken x y ys here s.0), s)
  ]

  pub sort_by-Sorted : (xs : List ℤ) → Sorted less (sort_by less xs)
  sort_by-Sorted [] = tt
  sort_by-Sorted (x ∷ xs) = Sorted-insert_by x (sort_by less xs) (sort_by-Sorted xs)

abbrev pub insertion : GoRuntime
insertion = record {
  sort_slice = sort_by;
  sort_slice-SameItems = sort_by-SameItems;
  sort_slice-Sorted = λ less xs w. sort_by-Sorted less w xs;
  range_ids = λ loop xs. xs;
  range_ids-SameItems = λ loop xs a. refl;
  range_names = λ loop xs. xs;
  range_names-SameItems = λ loop xs a. refl;
}
