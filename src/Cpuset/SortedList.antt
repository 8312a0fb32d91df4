-- ===== src/Cpuset/SortedList.antt =====
-- CPU sets as lists that are sorted when they are read: an instance of the interface, for tests
-- and for the concrete inputs of the theorems. Texts are parsed by a table.
use cpu_policy_plugins_for_k.Prelude.{
  ◌≡◌, ◌↔◌, refl, Bool, true, not, ◌&&◌, ◌||◌, List, [], ◌∷◌, ◌++◌, String, arith, length, elem,
  elem-select, select, ◌==◌, nat_beq, string_eq, if◌then◌else◌, Bool-cases, inl, inr, ==-refl,
}
use cpu_policy_plugins_for_k.Prelude.GoMap.{GoMap, get}
use cpu_policy_plugins_for_k.Prelude.Int.{ℤ, int_eq, int_beq_iff, ltb_ℤ, ltb_ℤ-total}
use cpu_policy_plugins_for_k.Cpuset.Order.{Above, Above-trans, Ascending}
use cpu_policy_plugins_for_k.Cpuset.Api.{Cpusets}

-- Put an id in its place, once.
abbrev pub insert_id : ℤ → List ℤ → List ℤ
insert_id x [] = x ∷ []
insert_id x (y ∷ ys) =
    if ltb_ℤ x y then x ∷ y ∷ ys else if x == y then y ∷ ys else y ∷ insert_id x ys

abbrev pub sort_ids : List ℤ → List ℤ
sort_ids [] = []
sort_ids (x ∷ xs) = insert_id x (sort_ids xs)

elem-insert_id : (x z : ℤ) (ys : List ℤ) → elem z (insert_id x ys) ≡ (x == z) || elem z ys
elem-insert_id x z [] = refl
elem-insert_id x z (y ∷ ys) =
    ground (arith, elem-insert_id x z ys, int_beq_iff x z, int_beq_iff y z, int_beq_iff x y)

pub elem-sort_ids : (z : ℤ) (xs : List ℤ) → elem z (sort_ids xs) ≡ elem z xs
elem-sort_ids z [] = refl
elem-sort_ids z (x ∷ xs) = ground (arith, elem-insert_id x z (sort_ids xs), elem-sort_ids z xs)

Above-insert_id : (b x : ℤ) (ys : List ℤ) → ltb_ℤ b x ≡ true → Above b ys → Above b (insert_id x ys)
Above-insert_id b x [] h k = (h, tt)
Above-insert_id b x (y ∷ ys) h k = ground (arith, Above-insert_id b x ys h k.1)

Ascending-insert_id : (x : ℤ) (ys : List ℤ) → Ascending ys → Ascending (insert_id x ys)
Ascending-insert_id x [] a = (tt, tt)
Ascending-insert_id x (y ∷ ys) a = elim (Bool-cases (ltb_ℤ x y)) [
  | inl below ↦ rw below ((below, Above-trans x y ys below a.0), a)
  | inr above ↦ elim (Bool-cases (x == y)) [
    | inl same ↦ rw (above, same) a
    | inr other ↦
        rw (above, other)
          (
            Above-insert_id y x ys (ground (arith, ltb_ℤ-total x y above, int_beq_iff x y)) a.0,
            Ascending-insert_id x ys a.1,
          )
  ]
]

pub Ascending-sort_ids : (xs : List ℤ) → Ascending (sort_ids xs)
Ascending-sort_ids [] = tt
Ascending-sort_ids (x ∷ xs) = Ascending-insert_id x (sort_ids xs) (Ascending-sort_ids xs)

abbrev pub all_in : List ℤ → List ℤ → Bool
all_in [] ys = true
all_in (x ∷ xs) ys = elem x ys && all_in xs ys

pub all_in_iff :
    (xs ys : List ℤ) → (all_in xs ys ≡ true) ↔ ((x : ℤ) → elem x xs ≡ true → elem x ys ≡ true)
all_in_iff xs ys = (forwards xs, backwards xs)
  where
    forwards : (zs : List ℤ) → all_in zs ys ≡ true → (x : ℤ) → elem x zs ≡ true → elem x ys ≡ true
    forwards [] h x m = cc
    forwards (z ∷ zs) h x m = ground (arith, forwards zs (ground arith) x, int_beq_iff z x)

    backwards :
        (zs : List ℤ) → ((x : ℤ) → elem x zs ≡ true → elem x ys ≡ true) → all_in zs ys ≡ true
    backwards [] h = refl
    backwards (z ∷ zs) h = ground (arith, h z, ==-refl z, backwards zs (λ x m. h x (ground arith)))

abbrev pub same_ids : List ℤ → List ℤ → Bool
same_ids xs ys = all_in xs ys && all_in ys xs

pub same_ids_iff : (xs ys : List ℤ) → (same_ids xs ys ≡ true) ↔ ((x : ℤ) → elem x xs ≡ elem x ys)
same_ids_iff xs ys = (
  λ h x.
      ground (arith, (all_in_iff xs ys).0 (ground arith) x, (all_in_iff ys xs).0 (ground arith) x),
  λ h. ground (
    arith,
    (all_in_iff xs ys).1 (λ x m. ground (arith, h x)),
    (all_in_iff ys xs).1 (λ x m. ground (arith, h x)),
  ),
)

pub elem-append : (x : ℤ) (xs ys : List ℤ) → elem x (xs ++ ys) ≡ elem x xs || elem x ys
elem-append x [] ys = refl
elem-append x (y ∷ xs) ys = ground (arith, elem-append x xs ys)

pub intersection_lem :
    (s t : List ℤ) (x : ℤ) → elem x (select (λ y. elem y t) s) ≡ elem x s && elem x t
intersection_lem s t x = ground (arith, elem-select (λ y. elem y t) x s)

pub difference_lem :
    (s t : List ℤ) (x : ℤ) → elem x (select (λ y. not (elem y t)) s) ≡ elem x s && not (elem x t)
difference_lem s t x = ground (arith, elem-select (λ y. not (elem y t)) x s)

abbrev pub sorted_lists : GoMap String (List ℤ) → Cpusets
sorted_lists table = record {
  CPUSet = List ℤ;
  new_cpuset = λ xs. xs;
  contains = λ s x. elem x s;
  size = λ s. length (sort_ids s);
  is_empty = λ s. nat_beq (length (sort_ids s)) 0;
  equals = same_ids;
  is_subset_of = all_in;
  union = λ s t. s ++ t;
  intersection = λ s t. select (λ x. elem x t) s;
  difference = λ s t. select (λ x. not (elem x t)) s;
  to_slice = sort_ids;
  parse = λ text. get text table;
  to_string = λ s. "";
  contains-new = λ xs x. refl;
  contains-union = λ s t x. elem-append x s t;
  contains-intersection = λ s t x. intersection_lem s t x;
  contains-difference = λ s t x. difference_lem s t x;
  is_subset_of_iff = all_in_iff;
  equals_iff = same_ids_iff;
  elem-to_slice = λ s x. elem-sort_ids x s;
  to_slice-Ascending = Ascending-sort_ids;
  size_lem = λ s. refl;
  is_empty_lem = λ s. refl;
}
