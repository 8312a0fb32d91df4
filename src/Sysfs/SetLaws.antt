-- ===== src/Sysfs/SetLaws.antt =====
-- pkg/sysfs/idset.go: an `IdSet` is a set, and its sorted members are its ids in order.
use cpu_policy_plugins_for_k.Prelude.{
  ◌+◌, ◌≡◌, refl, Bool-cases, inl, inr, ◌∙◌, not, ◌&&◌, ◌||◌, List, [], ◌∷◌, some, elem, ◌==◌,
  if◌then◌else◌, arith, elem-count, Distinct, elem-select, count-select,
}
use cpu_policy_plugins_for_k.Prelude.Int.{ℤ, int_eq, int_beq_iff, ltb_ℤ}
use cpu_policy_plugins_for_k.Runtime.{
  GoRuntime, elem-SameItems, Distinct-SameItems, sort_slice-Ascending, elem-sort_slice,
}
use cpu_policy_plugins_for_k.Cpuset.{Cpusets, Ascending}
use cpu_policy_plugins_for_k.Sysfs.Sets.{
  IdSet, nil_set, id_set, ids, store_all, new_id_set, new_id_set_from_int_slice, add, del, has,
  members, sorted_members, cpuset_of, from_cpuset, id_set_size,
}

pub elem-store_all : (x : ℤ) (xs acc : List ℤ) → elem x (store_all xs acc) ≡ elem x xs || elem x acc
unfolding store_all
elem-store_all x [] acc = refl
elem-store_all x (y ∷ ys) acc =
    ground (arith, elem-store_all x ys acc, elem-store_all x ys (y ∷ acc), int_beq_iff y x)

pub elem-new_id_set : (x : ℤ) (xs : List ℤ) → elem x (ids (new_id_set xs)) ≡ elem x xs
unfolding new_id_set
elem-new_id_set x xs = ground (arith, elem-store_all x xs [])

Distinct-store_all : (xs acc : List ℤ) → Distinct acc → Distinct (store_all xs acc)
unfolding store_all
Distinct-store_all [] acc d = d
Distinct-store_all (y ∷ ys) acc d = elim (Bool-cases (elem y acc)) [
  | inl old ↦ rw (old, store_all) (Distinct-store_all ys acc d)
  | inr new ↦
      rw (new, store_all)
        (Distinct-store_all ys (y ∷ acc)
          λ b. ground (arith, d b, elem-count y acc, int_beq_iff y b))
]

-- The set of a slice: its ids, each once.
pub Distinct-new_id_set : (xs : List ℤ) → Distinct (ids (new_id_set xs))
unfolding new_id_set
Distinct-new_id_set xs = Distinct-store_all xs [] (λ a. omega arith)

-- A set in use: a map holds a key once.
abbrev pub IsSetOfIds : IdSet → Type 0
IsSetOfIds s = Distinct (ids s)

-- `Add` to a map that was made reports whether the id was there, and afterwards it is: the set
-- grows by the id alone, and stays a set.
pub add_lem :
    (xs : List ℤ) (x : ℤ)
    → Distinct xs
    → (ys : List ℤ) × (add (id_set xs) x ≡ some (id_set ys, has (id_set xs) x))
      × ((y : ℤ) → has (id_set ys) y ≡ (x == y) || has (id_set xs) y)
      × IsSetOfIds (id_set ys)
      × (id_set_size (id_set ys) ≡ id_set_size (id_set xs) + (if has (id_set xs) x then 0 else 1))
unfolding add has id_set_size
add_lem xs x d = elim (Bool-cases (elem x xs)) [
  | inl old ↦ (xs, rw old, λ y. ground (arith, int_beq_iff x y), d, rw old (omega arith))
  | inr new ↦ (
    x ∷ xs,
    rw new,
    λ y. refl,
    λ b. ground (arith, d b, elem-count x xs, int_beq_iff x b),
    rw new (omega arith),
  )
]

-- `Del` reports whether the id was there, and afterwards it is not; no other id is touched. The
-- nil set stays as it is.
pub del_lem :
    (s : IdSet) (x : ℤ)
    → IsSetOfIds s
    → ((del s x).1 ≡ has s x)
      × ((y : ℤ) → has (del s x).0 y ≡ has s y && not (y == x))
      × IsSetOfIds (del s x).0
unfolding del has
del_lem nil_set x d = (refl, λ y. refl, d)
del_lem (id_set xs) x d = elim (Bool-cases (elem x xs)) [
  | inl old ↦ rw old (
    refl,
    λ y. ground (arith, elem-select (λ z. not (z == x)) y xs),
    λ a. ground (arith, d a, count-select (λ z. not (z == x)) a xs),
  )
  | inr new ↦ rw new (refl, λ y. ground (arith, int_beq_iff y x), d)
]

module _ ⦃g : GoRuntime⦄ where
  open g use {sort_slice, range_ids, range_ids-SameItems}

  members-Distinct : (s : IdSet) → IsSetOfIds s → Distinct (members s)
  unfolding members
  members-Distinct nil_set d = d
  members-Distinct (id_set xs) d = Distinct-SameItems _ xs (range_ids-SameItems "Members" xs) d

  elem-members : (s : IdSet) (x : ℤ) → elem x (members s) ≡ has s x
  unfolding members has
  elem-members nil_set x = refl
  elem-members (id_set xs) x = elem-SameItems _ xs (range_ids-SameItems "Members" xs) x

  -- The sorted slice of a set, which holds an id once, has the set's ids, in ascending order, whatever order the map is visited in.
  pub sorted_members_lem :
      (s : IdSet)
      → IsSetOfIds s
      → Ascending (sorted_members s) × ((x : ℤ) → elem x (sorted_members s) ≡ has s x)
  unfolding sorted_members
  sorted_members_lem s d = (
    sort_slice-Ascending (members s) (members-Distinct s d),
    λ x. elem-sort_slice ltb_ℤ (members s) x ∙ elem-members s x,
  )

module _ ⦃c : Cpusets⦄ where
  open c use {CPUSet, new_cpuset, to_slice, contains, contains-new, elem-to_slice}

  -- A CPU set survives the way into an id set and back.
  pub cpuset_of-from_cpuset :
      (s : CPUSet) (x : ℤ) → contains (cpuset_of (from_cpuset s)) x ≡ contains s x
  unfolding cpuset_of from_cpuset new_id_set_from_int_slice
  cpuset_of-from_cpuset s x = ground (
    arith,
    contains-new (store_all (to_slice s) []) x,
    elem-store_all x (to_slice s) [],
    elem-to_slice s x,
  )
