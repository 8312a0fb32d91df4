-- ===== src/Cpuset/Sizes.antt =====
-- How the operations on CPU sets change their sizes.
use cpu_policy_plugins_for_k.Prelude.{
  ◌+◌, ◌≤◌, ◌≡◌, refl, true, false, not, ◌&&◌, arith, elem, sym, ap, ◌∙◌, List, [], ◌∷◌, length,
  length-select, tally_split, tally_all, Distinct, elem-count,
}
use cpu_policy_plugins_for_k.Prelude.Int.{ℤ, int_eq, int_beq_iff}
use cpu_policy_plugins_for_k.Cpuset.Api.{Cpusets}
use cpu_policy_plugins_for_k.Cpuset.Slices.{
  to_slice_of_members, to_slice-difference, to_slice-intersection,
}

module _ ⦃c : Cpusets⦄ where
  open c use {
    CPUSet, contains, new_cpuset, size, union, difference, intersection, to_slice, contains-new,
    contains-union, contains-difference, contains-intersection, elem-to_slice, to_slice-Ascending,
    size_lem, is_empty, is_empty_lem,
  }

  -- No id is in both sets.
  abbrev pub Disjoint : CPUSet → CPUSet → Type 0
  Disjoint s t = (x : ℤ) → (contains s x && contains t x) ≡ false

  abbrev pub Subset : CPUSet → CPUSet → Type 0
  Subset s t = (x : ℤ) → contains s x ≡ true → contains t x ≡ true

  abbrev pub SameMembers : CPUSet → CPUSet → Type 0
  SameMembers s t = (x : ℤ) → contains s x ≡ contains t x

  pub size_ext : (s t : CPUSet) → SameMembers s t → size s ≡ size t
  size_ext s t h =
      size_lem s
      ∙ ap length (
          to_slice_of_members s (to_slice t) (to_slice-Ascending t)
            λ x. elem-to_slice t x ∙ sym (h x))
      ∙ sym (size_lem t)

  pub size_split : (s t : CPUSet) → size (difference s t) + size (intersection s t) ≡ size s
  size_split s t = omega (
    arith,
    size_lem s,
    size_lem (difference s t),
    size_lem (intersection s t),
    ap length (to_slice-difference s t),
    ap length (to_slice-intersection s t),
    length-select (λ x. not (contains t x)) (to_slice s),
    length-select (contains t) (to_slice s),
    tally_split (λ x. true) (contains t) (to_slice s),
    tally_all (to_slice s),
  )

  pub size-union : (s t : CPUSet) → Disjoint s t → size (union s t) ≡ size s + size t
  size-union s t h = omega (
    arith,
    size_split (union s t) t,
    size_ext (difference (union s t) t) s
        (λ x. ground (arith, contains-difference (union s t) t x, contains-union s t x, h x)),
    size_ext (intersection (union s t) t) t
        (λ x. ground (arith, contains-intersection (union s t) t x, contains-union s t x)),
  )

  pub size-difference : (s t : CPUSet) → Subset t s → size (difference s t) + size t ≡ size s
  size-difference s t h = omega (
    arith,
    size_split s t,
    size_ext (intersection s t) t (λ x. ground (arith, contains-intersection s t x, h x)),
  )

  pub size-le : (s t : CPUSet) → Subset s t → size s ≤ size t
  size-le s t h = omega (arith, size-difference t s h)

  pub size-singleton : (x : ℤ) → size (new_cpuset (x ∷ [])) ≡ 1
  size-singleton x =
      size_lem (new_cpuset (x ∷ []))
      ∙ ap length (
          to_slice_of_members (new_cpuset (x ∷ [])) (x ∷ []) (tt, tt)
            λ y. sym (contains-new (x ∷ []) y))

  pub size-empty : size (new_cpuset []) ≡ 0
  size-empty =
      size_lem (new_cpuset [])
      ∙ ap length (to_slice_of_members (new_cpuset []) [] tt λ y. sym (contains-new [] y))

  -- A slice without duplicates makes a set of its length.
  pub size-new : (xs : List ℤ) → Distinct xs → size (new_cpuset xs) ≡ length xs
  size-new [] d = size-empty
  size-new (x ∷ xs) d = omega (
    arith,
    size-new xs (λ a. ground (arith, d a)),
    size-singleton x,
    size-union (new_cpuset (x ∷ [])) (new_cpuset xs) (λ y.
        ground (
          arith,
          contains-new (x ∷ []) y,
          contains-new xs y,
          int_beq_iff x y,
          d y,
          elem-count y xs,
        )),
    size_ext (new_cpuset (x ∷ xs)) (union (new_cpuset (x ∷ [])) (new_cpuset xs)) (λ y. ground (
      arith,
      contains-union (new_cpuset (x ∷ [])) (new_cpuset xs) y,
      contains-new (x ∷ xs) y,
      contains-new (x ∷ []) y,
      contains-new xs y,
    )),
  )

  no_elem : (xs : List ℤ) (x : ℤ) → length xs ≡ 0 → elem x xs ≡ false
  no_elem [] x e = refl
  no_elem (y ∷ ys) x e = absurd (omega arith)

  pub none_in_empty : (s : CPUSet) → is_empty s ≡ true → (x : ℤ) → contains s x ≡ false
  none_in_empty s e x =
      sym (elem-to_slice s x) ∙ no_elem (to_slice s) x (ground (arith, size_lem s, is_empty_lem s))
