-- ===== src/Cpuset/Slices.antt =====
-- The slices of computed sets.
use cpu_policy_plugins_for_k.Prelude.{◌≡◌, not, arith, select, elem, elem-select, sym, ◌∙◌, List}
use cpu_policy_plugins_for_k.Prelude.Int.{ℤ, int_eq}
use cpu_policy_plugins_for_k.Cpuset.Order.{Ascending, Ascending-select, Ascending-unique}
use cpu_policy_plugins_for_k.Cpuset.Api.{Cpusets}

module _ ⦃c : Cpusets⦄ where
  open c use {
    CPUSet, contains, new_cpuset, difference, intersection, to_slice, contains-difference,
    contains-intersection, elem-to_slice, to_slice-Ascending, contains-new,
  }

  -- An ascending list with a set's members is its slice.
  pub to_slice_of_members :
      (s : CPUSet) (xs : List ℤ)
      → Ascending xs
      → ((x : ℤ) → elem x xs ≡ contains s x)
      → to_slice s ≡ xs
  to_slice_of_members s xs a h =
      Ascending-unique (to_slice s) xs (to_slice-Ascending s) a λ x. elem-to_slice s x ∙ sym (h x)

  pub to_slice-difference :
      (s t : CPUSet) → to_slice (difference s t) ≡ select (λ x. not (contains t x)) (to_slice s)
  to_slice-difference s t =
      to_slice_of_members (difference s t) _
        (Ascending-select (λ x. not (contains t x)) _ (to_slice-Ascending s))
        λ x. ground (
          arith,
          elem-select (λ x. not (contains t x)) x (to_slice s),
          elem-to_slice s x,
          contains-difference s t x,
        )

  pub to_slice-intersection :
      (s t : CPUSet) → to_slice (intersection s t) ≡ select (contains t) (to_slice s)
  to_slice-intersection s t =
      to_slice_of_members (intersection s t) _
        (Ascending-select (contains t) _ (to_slice-Ascending s))
        λ x. ground (
          arith,
          elem-select (contains t) x (to_slice s),
          elem-to_slice s x,
          contains-intersection s t x,
        )
