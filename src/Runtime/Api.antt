-- ===== src/Runtime/Api.antt =====
-- The parts of the Go runtime whose result the language does not fix. A loop is named by the
-- function that it stands in, so that two loops may visit one map in two orders.
use cpu_policy_plugins_for_k.Prelude.{
  ◌≡◌, Bool, true, false, List, [], ◌∷◌, String, SameItems, string_eq,
}
use cpu_policy_plugins_for_k.Prelude.Int.{ℤ, int_eq}

-- What `sort.Slice` asks of its test.
pub record StrictWeakOrder (less : ℤ → ℤ → Bool) : Type 0 where
  pub irrefl : (a : ℤ) → less a a ≡ false
  pub trans : (a b c : ℤ) → less a b ≡ true → less b c ≡ true → less a c ≡ true
  pub incomparable :
      (a b c : ℤ)
      → less a b ≡ false
      → less b a ≡ false
      → less b c ≡ false
      → less c b ≡ false
      → less a c ≡ false

-- No element is less than one that stands before it.
abbrev pub NoneBelow : (ℤ → ℤ → Bool) → ℤ → List ℤ → Type 0
NoneBelow less a [] = Unit {0}
NoneBelow less a (x ∷ xs) = (less x a ≡ false) × NoneBelow less a xs

abbrev pub Sorted : (ℤ → ℤ → Bool) → List ℤ → Type 0
Sorted less [] = Unit {0}
Sorted less (x ∷ xs) = NoneBelow less x xs × Sorted less xs

pub record GoRuntime : Type 0 where
  -- `sort.Slice`
  pub sort_slice : (ℤ → ℤ → Bool) → List ℤ → List ℤ
  pub sort_slice-SameItems : (less : ℤ → ℤ → Bool) (xs : List ℤ) → SameItems (sort_slice less xs) xs
  pub sort_slice-Sorted :
      (less : ℤ → ℤ → Bool) (xs : List ℤ) → StrictWeakOrder less → Sorted less (sort_slice less xs)
  -- `for k := range m`, from the keys of the map and the name of the function
  pub range_ids : String → List ℤ → List ℤ
  pub range_ids-SameItems : (loop : String) (xs : List ℤ) → SameItems (range_ids loop xs) xs
  pub range_names : String → List String → List String
  pub range_names-SameItems :
      (loop : String) (xs : List String) → SameItems (range_names loop xs) xs
