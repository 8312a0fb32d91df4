-- ===== src/Sysfs/Sets.antt =====
-- pkg/sysfs/idset.go: `IdSet`, a `map[Id]struct{}`. The nil map reads as the empty set, and a write
-- to it panics, which is `none` here. The order of the list is that of an iteration.
use cpu_policy_plugins_for_k.Prelude.{
  ℕ, Bool, true, false, not, List, [], ◌∷◌, Option, none, some, length, elem, select, ◌==◌,
  if◌then◌else◌,
}
use cpu_policy_plugins_for_k.Prelude.Int.{ℤ, negsuc, int_eq, ltb_ℤ}
use cpu_policy_plugins_for_k.Runtime.{GoRuntime}
use cpu_policy_plugins_for_k.Cpuset.{Cpusets}

-- An id is an `int`; `Unknown` is -1.
abbrev pub unknown : ℤ
unknown = negsuc 0

pub data IdSet : Type 0 where
  nil_set : IdSet
  id_set : List ℤ → IdSet

abbrev pub ids : IdSet → List ℤ
ids nil_set = []
ids (id_set xs) = xs

abbrev pub store_id : ℤ → List ℤ → List ℤ
store_id x xs = if elem x xs then xs else x ∷ xs

unfoldable pub store_all : List ℤ → List ℤ → List ℤ
store_all [] acc = acc
store_all (x ∷ xs) acc = store_all xs (store_id x acc)

unfoldable pub new_id_set : List ℤ → IdSet
unfolding store_all
new_id_set xs = id_set (store_all xs [])

unfoldable pub new_id_set_from_int_slice : List ℤ → IdSet
unfolding store_all
new_id_set_from_int_slice xs = id_set (store_all xs [])

-- The set with the id, and whether the id was there.
unfoldable pub add : IdSet → ℤ → Option (IdSet × Bool)
add nil_set x = none
add (id_set xs) x = some (if elem x xs then (id_set xs, true) else (id_set (x ∷ xs), false))

unfoldable pub del : IdSet → ℤ → IdSet × Bool
del nil_set x = (nil_set, false)
del (id_set xs) x =
    if elem x xs then (id_set (select (λ y. not (y == x)) xs), true) else (id_set xs, false)

unfoldable pub id_set_size : IdSet → ℕ
id_set_size s = length (ids s)

unfoldable pub has : IdSet → ℤ → Bool
has nil_set x = false
has (id_set xs) x = elem x xs

module _ ⦃g : GoRuntime⦄ where
  open g use {sort_slice, range_ids}

  unfoldable pub members : IdSet → List ℤ
  members nil_set = []
  members (id_set xs) = range_ids "Members" xs

  unfoldable pub sorted_members : IdSet → List ℤ
  unfolding members
  sorted_members s = sort_slice (λ i j. ltb_ℤ i j) (members s)

module _ ⦃c : Cpusets⦄ where
  open c use {CPUSet, new_cpuset, to_slice}

  -- `IdSet.CPUSet`; the builder does not depend on the order.
  unfoldable pub cpuset_of : IdSet → CPUSet
  cpuset_of s = new_cpuset (ids s)

  unfoldable pub from_cpuset : CPUSet → IdSet
  unfolding new_id_set_from_int_slice
  from_cpuset cset = new_id_set_from_int_slice (to_slice cset)
