-- ===== src/Cpuset/Api.antt =====
-- What the plugin uses of k8s.io/kubernetes/pkg/kubelet/cm/cpuset: an immutable set of ids.
-- `Clone` copies an immutable value, so the model has no operation for it.
use cpu_policy_plugins_for_k.Prelude.{
  ℕ, ◌≡◌, ◌↔◌, Bool, true, not, ◌&&◌, ◌||◌, List, Option, String, length, elem, nat_beq,
}
use cpu_policy_plugins_for_k.Prelude.Int.{ℤ, int_eq}
use cpu_policy_plugins_for_k.Cpuset.Order.{Ascending}

pub record Cpusets : Type 1 where
  pub CPUSet : Type 0
  -- `NewCPUSet`, also what a `Builder` results in.
  pub new_cpuset : List ℤ → CPUSet
  pub contains : CPUSet → ℤ → Bool
  pub size : CPUSet → ℕ
  pub is_empty : CPUSet → Bool
  pub equals : CPUSet → CPUSet → Bool
  pub is_subset_of : CPUSet → CPUSet → Bool
  pub union : CPUSet → CPUSet → CPUSet
  pub intersection : CPUSet → CPUSet → CPUSet
  pub difference : CPUSet → CPUSet → CPUSet
  pub to_slice : CPUSet → List ℤ
  -- `Parse`, with `none` for its error.
  pub parse : String → Option CPUSet
  pub to_string : CPUSet → String
  pub contains-new : (xs : List ℤ) (x : ℤ) → contains (new_cpuset xs) x ≡ elem x xs
  pub contains-union :
      (s t : CPUSet) (x : ℤ) → contains (union s t) x ≡ contains s x || contains t x
  pub contains-intersection :
      (s t : CPUSet) (x : ℤ) → contains (intersection s t) x ≡ contains s x && contains t x
  pub contains-difference :
      (s t : CPUSet) (x : ℤ) → contains (difference s t) x ≡ contains s x && not (contains t x)
  pub is_subset_of_iff :
      (s t : CPUSet)
      → (is_subset_of s t ≡ true) ↔ ((x : ℤ) → contains s x ≡ true → contains t x ≡ true)
  pub equals_iff : (s t : CPUSet) → (equals s t ≡ true) ↔ ((x : ℤ) → contains s x ≡ contains t x)
  pub elem-to_slice : (s : CPUSet) (x : ℤ) → elem x (to_slice s) ≡ contains s x
  pub to_slice-Ascending : (s : CPUSet) → Ascending (to_slice s)
  pub size_lem : (s : CPUSet) → size s ≡ length (to_slice s)
  pub is_empty_lem : (s : CPUSet) → is_empty s ≡ nat_beq (size s) 0
