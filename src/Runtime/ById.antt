-- ===== src/Runtime/ById.antt =====
-- Sorting by id, which does not depend on the runtime, and lists with the same items.
use cpu_policy_plugins_for_k.Prelude.{
  ◌≡◌, Bool, List, [], ◌∷◌, arith, SameItems, Distinct, count, elem, elem-count, ◌&&◌, ◌∙◌, select,
  count-select, elem-select,
}
use cpu_policy_plugins_for_k.Prelude.Int.{
  ℤ, int_eq, int_beq_iff, ltb_ℤ, ltb_ℤ-irrefl, ltb_ℤ-trans, ltb_ℤ-total,
}
use cpu_policy_plugins_for_k.Cpuset.{Above, Ascending}
use cpu_policy_plugins_for_k.Runtime.Api.{GoRuntime, StrictWeakOrder, NoneBelow, Sorted}

-- The ids have a strict order, so a sort by id does not depend on the runtime.
pub ltb_ℤ-StrictWeakOrder : StrictWeakOrder ltb_ℤ
ltb_ℤ-StrictWeakOrder = record {
  irrefl = ltb_ℤ-irrefl;
  trans = ltb_ℤ-trans;
  incomparable = λ a b c p q r s. ground (arith, ltb_ℤ-total a b p q, ltb_ℤ-total b c r s);
}

Above-Sorted : (x : ℤ) (xs : List ℤ) → NoneBelow ltb_ℤ x xs → count x xs ≡ 0 → Above x xs
Above-Sorted x [] s h = tt
Above-Sorted x (y ∷ ys) s h =
    (ground (arith, ltb_ℤ-total x y, int_beq_iff y x), Above-Sorted x ys s.1 (ground arith))

pub Ascending-Sorted : (xs : List ℤ) → Sorted ltb_ℤ xs → Distinct xs → Ascending xs
Ascending-Sorted [] s d = tt
Ascending-Sorted (x ∷ xs) s d = (
  Above-Sorted x xs s.0 (ground (arith, d x, int_beq_iff x x)),
  Ascending-Sorted xs s.1 (λ a. ground (arith, d a)),
)

pub elem-SameItems : (xs ys : List ℤ) → SameItems xs ys → (x : ℤ) → elem x xs ≡ elem x ys
elem-SameItems xs ys h x = ground (arith, h x, elem-count x xs, elem-count x ys)

pub Distinct-SameItems : (xs ys : List ℤ) → SameItems xs ys → Distinct ys → Distinct xs
Distinct-SameItems xs ys h d a = omega (arith, h a, d a)

module _ ⦃g : GoRuntime⦄ where
  open g use {sort_slice, sort_slice-SameItems, sort_slice-Sorted}

  pub sort_slice-Ascending : (xs : List ℤ) → Distinct xs → Ascending (sort_slice ltb_ℤ xs)
  sort_slice-Ascending xs d =
      Ascending-Sorted _ (sort_slice-Sorted ltb_ℤ xs ltb_ℤ-StrictWeakOrder)
        (Distinct-SameItems _ xs (sort_slice-SameItems ltb_ℤ xs) d)

  pub elem-sort_slice :
      (less : ℤ → ℤ → Bool) (xs : List ℤ) (x : ℤ) → elem x (sort_slice less xs) ≡ elem x xs
  elem-sort_slice less xs = elem-SameItems _ xs (sort_slice-SameItems less xs)

  pub Distinct-sort_slice :
      (less : ℤ → ℤ → Bool) (xs : List ℤ) → Distinct xs → Distinct (sort_slice less xs)
  Distinct-sort_slice less xs = Distinct-SameItems _ xs (sort_slice-SameItems less xs)

  -- A slice that is filtered and then sorted.
  pub Distinct-sort_select :
      (less : ℤ → ℤ → Bool) (p : ℤ → Bool) (xs : List ℤ)
      → Distinct xs
      → Distinct (sort_slice less (select p xs))
  Distinct-sort_select less p xs d =
      Distinct-sort_slice less (select p xs) λ a. ground (arith, count-select p a xs, d a)

  pub elem-sort_select :
      (less : ℤ → ℤ → Bool) (p : ℤ → Bool) (xs : List ℤ) (x : ℤ)
      → elem x (sort_slice less (select p xs)) ≡ p x && elem x xs
  elem-sort_select less p xs x = elem-sort_slice less (select p xs) x ∙ elem-select p x xs
