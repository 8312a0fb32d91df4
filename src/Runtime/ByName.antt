-- ===== src/Runtime/ByName.antt =====
-- A loop over a map by names visits the keys of the map.
use cpu_policy_plugins_for_k.Prelude.{◌≡◌, List, String, string_eq, arith, elem, elem-count}
use cpu_policy_plugins_for_k.Runtime.Api.{GoRuntime}

module _ ⦃g : GoRuntime⦄ where
  open g use {range_names, range_names-SameItems}

  pub elem-ranged :
      (loop : String) (a : String) (xs : List String) → elem a (range_names loop xs) ≡ elem a xs
  elem-ranged loop a xs =
      ground (
        arith,
        range_names-SameItems loop xs a,
        elem-count a (range_names loop xs),
        elem-count a xs,
      )
