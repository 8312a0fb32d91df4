-- ===== src/Cpuset/Order.antt =====
-- Strictly ascending lists of ids, as `ToSlice` and the sorts by id return them.
use cpu_policy_plugins_for_k.Prelude.{
  ℕ, zero, suc, ◌≡◌, refl, Bool, true, false, List, [], ◌∷◌, arith, elem, select, ◌==◌, ==-refl,
  Bool-cases, inl, inr, take,
}
use cpu_policy_plugins_for_k.Prelude.Int.{
  ℤ, ltb_ℤ, int_eq, int_beq_iff, ltb_ℤ-trans, ltb_ℤ-irrefl, ltb_ℤ-total,
}

-- Every element lies above a bound.
abbrev pub Above : ℤ → List ℤ → Type 0
Above b [] = Unit {0}
Above b (x ∷ xs) = (ltb_ℤ b x ≡ true) × Above b xs

abbrev pub Ascending : List ℤ → Type 0
Ascending [] = Unit {0}
Ascending (x ∷ xs) = Above x xs × Ascending xs

pub Above-trans : (a b : ℤ) (xs : List ℤ) → ltb_ℤ a b ≡ true → Above b xs → Above a xs
Above-trans a b [] h k = tt
Above-trans a b (x ∷ xs) h k = (ltb_ℤ-trans a b x h k.0, Above-trans a b xs h k.1)

pub Above-select : (p : ℤ → Bool) (b : ℤ) (xs : List ℤ) → Above b xs → Above b (select p xs)
Above-select p b [] h = tt
Above-select p b (x ∷ xs) h = ground (arith, Above-select p b xs h.1)

pub Ascending-select : (p : ℤ → Bool) (xs : List ℤ) → Ascending xs → Ascending (select p xs)
Ascending-select p [] h = tt
Ascending-select p (x ∷ xs) h = ground (arith, Ascending-select p xs h.1, Above-select p x xs h.0)

-- What lies above a bound is not at or below it.
pub ltb_ℤ_of_Above :
    (b : ℤ) (xs : List ℤ) → Above b xs → (x : ℤ) → elem x xs ≡ true → ltb_ℤ b x ≡ true
ltb_ℤ_of_Above b [] h x m = cc
ltb_ℤ_of_Above b (y ∷ ys) h x m = elim (Bool-cases (y == x)) [
  | inl same ↦ rw ((int_beq_iff y x).0 same) at h.0
  | inr other ↦ ltb_ℤ_of_Above b ys h.1 x (ground arith)
]

pub absent_of_Above : (b : ℤ) (xs : List ℤ) → Above b xs → elem b xs ≡ false
absent_of_Above b xs h = elim (Bool-cases (elem b xs)) [
  | inl m ↦ absurd (cc (ltb_ℤ_of_Above b xs h b m, ltb_ℤ-irrefl b))
  | inr m ↦ m
]

-- The first elements of two ascending lists with the same members agree.
not_below_head : (x y : ℤ) (ys : List ℤ) → Above y ys → elem x (y ∷ ys) ≡ true → ltb_ℤ x y ≡ false
not_below_head x y ys k m = elim (Bool-cases (y == x)) [
  | inl same ↦ rw ((int_beq_iff y x).0 same) (ltb_ℤ-irrefl x)
  | inr other ↦
      ground (arith, ltb_ℤ_of_Above y ys k x (ground arith), ltb_ℤ-trans x y x, ltb_ℤ-irrefl x)
]

-- An ascending list is determined by its members.
pub Ascending-unique :
    (xs ys : List ℤ) → Ascending xs → Ascending ys → ((x : ℤ) → elem x xs ≡ elem x ys) → xs ≡ ys
Ascending-unique [] [] p q h = refl
Ascending-unique [] (y ∷ ys) p q h = ground (arith, h y, ==-refl y)
Ascending-unique (x ∷ xs) [] p q h = ground (arith, h x, ==-refl x)
Ascending-unique (x ∷ xs) (y ∷ ys) p q h =
    let e : x ≡ y =
      ltb_ℤ-total x y (not_below_head x y ys q.0 (ground (arith, h x, ==-refl x)))
        (not_below_head y x xs p.0 (ground (arith, h y, ==-refl y))) in
    let rest : xs ≡ ys = Ascending-unique xs ys p.1 q.1 λ z. ground (
      arith,
      h z,
      e,
      int_beq_iff x z,
      int_beq_iff y z,
      absent_of_Above x xs p.0,
      absent_of_Above y ys q.0,
    ) in
    cc

pub Above-take : (n : ℕ) (b : ℤ) (xs : List ℤ) → Above b xs → Above b (take n xs)
Above-take zero b xs h = tt
Above-take (suc n) b [] h = tt
Above-take (suc n) b (x ∷ xs) h = (h.0, Above-take n b xs h.1)

pub Ascending-take : (n : ℕ) (xs : List ℤ) → Ascending xs → Ascending (take n xs)
Ascending-take zero xs h = tt
Ascending-take (suc n) [] h = tt
Ascending-take (suc n) (x ∷ xs) h = (Above-take n x xs h.0, Ascending-take n xs h.1)

pub elem-take : (n : ℕ) (xs : List ℤ) (x : ℤ) → elem x (take n xs) ≡ true → elem x xs ≡ true
elem-take zero xs x h = cc
elem-take (suc n) [] x h = h
elem-take (suc n) (y ∷ ys) x h = ground (arith, elem-take n ys x)
