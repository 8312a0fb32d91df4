-- ===== src/Prelude/Lists.antt =====
-- Lists measured by native numbers, under the library's names, and membership by `==`.
use Prim.Native.Nat.{ℕ, zero, suc, ◌+◌, ◌≤◌, min}
use mathlib.Core.Path.{◌≡◌, refl}
use mathlib.Core.Bool.{Bool, true, false, ◌&&◌, ◌||◌, not}
use mathlib.Core.List.{List, [], ◌∷◌}
use native.Mathlib.Omega.{arith}
use cpu_policy_plugins_for_k.Prelude.Tests.{Eq, ◌==◌, if◌then◌else◌, ltb}

module _ {ℓ} {A : Type ℓ} where
  abbrev pub length : List A → ℕ
  length [] = 0
  length (x ∷ xs) = suc (length xs)

  abbrev pub take : ℕ → List A → List A
  take zero xs = []
  take (suc n) [] = []
  take (suc n) (x ∷ xs) = x ∷ take n xs

  pub length-take : (n : ℕ) (xs : List A) → length (take n xs) ≡ min n (length xs)
  length-take zero xs = omega arith
  length-take (suc n) [] = omega arith
  length-take (suc n) (x ∷ xs) = omega (arith, length-take n xs)

  -- The elements that pass a test, as the source's filtering loops keep them.
  abbrev pub select : (A → Bool) → List A → List A
  select p [] = []
  select p (x ∷ xs) = if p x then x ∷ select p xs else select p xs

  -- How often a test passes.
  abbrev pub tally : (A → Bool) → List A → ℕ
  tally p [] = 0
  tally p (x ∷ xs) = (if p x then 1 else 0) + tally p xs

  pub length-select : (p : A → Bool) (xs : List A) → length (select p xs) ≡ tally p xs
  length-select p [] = refl
  length-select p (x ∷ xs) = ground (arith, length-select p xs)

  pub tally_split :
      (p q : A → Bool) (xs : List A)
      → tally p xs ≡ tally (λ x. p x && q x) xs + tally (λ x. p x && not (q x)) xs
  tally_split p q [] = refl
  tally_split p q (x ∷ xs) = ground (arith, tally_split p q xs)

  pub tally_all : (xs : List A) → tally (λ x. true) xs ≡ length xs
  tally_all [] = refl
  tally_all (x ∷ xs) = omega (arith, tally_all xs)

module _ {ℓ} {A : Type ℓ} ⦃e : Eq A⦄ where
  abbrev pub elem : A → List A → Bool
  elem a [] = false
  elem a (x ∷ xs) = x == a || elem a xs

  abbrev pub count : A → List A → ℕ
  count a [] = 0
  count a (x ∷ xs) = (if x == a then 1 else 0) + count a xs

  -- No value stands twice.
  abbrev pub Distinct : List A → Type ℓ
  Distinct xs = (a : A) → count a xs ≤ 1

  -- The same values, as often: what the order of a Go map's iteration leaves.
  abbrev pub SameItems : List A → List A → Type ℓ
  SameItems xs ys = (a : A) → count a xs ≡ count a ys

  pub elem-count : (a : A) (xs : List A) → elem a xs ≡ ltb 0 (count a xs)
  elem-count a [] = refl
  elem-count a (x ∷ xs) = ground (arith, elem-count a xs)

  pub count-select :
      (p : A → Bool) (a : A) (xs : List A) → count a (select p xs) ≡ (if p a then count a xs else 0)
  count-select p a [] = ground arith
  count-select p a (x ∷ xs) = ground (arith, count-select p a xs, e.equal_iff x a)

  pub elem-select : (p : A → Bool) (a : A) (xs : List A) → elem a (select p xs) ≡ p a && elem a xs
  elem-select p a [] = ground arith
  elem-select p a (x ∷ xs) = ground (arith, elem-select p a xs, e.equal_iff x a)
