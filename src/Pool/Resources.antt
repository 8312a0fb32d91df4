-- ===== src/Pool/Resources.antt =====
-- cmd/cpu-pool-policy/pool/pool.go: `GetContainerPoolResources`, the pool that a container asks
-- for and its CPU request and limit.
use Prim.Native.String.{len, slice}
use text.Mathlib.Text.{starts_with}
use cpu_policy_plugins_for_k.Prelude.{
  Option, none, some, List, [], ◌∷◌, String, string_eq, ◌==◌, if◌then◌else◌,
}
use cpu_policy_plugins_for_k.Prelude.GoMap.{get, keys}
use cpu_policy_plugins_for_k.Prelude.Int.{ℤ, pos}
use cpu_policy_plugins_for_k.Runtime.{GoRuntime}
use cpu_policy_plugins_for_k.Kube.{
  Quantities, ResourceList, KubeContainer, KubePod, resource_cpu, namespace_system,
}
use cpu_policy_plugins_for_k.Config.{resource_prefix, reserved_pool, default_pool}

-- `strings.TrimPrefix`
unfoldable pub trim_prefix : String → String → String
trim_prefix s prefix = if starts_with s prefix then slice s (len prefix) (len s) else s

-- The loop over the names of the requests: the first pool that comes up is taken.
unfoldable pub first_pool : String → List String → String
first_pool otherwise [] = otherwise
first_pool otherwise (name ∷ rest) =
    if starts_with name resource_prefix
    then trim_prefix name resource_prefix
    else first_pool otherwise rest

module _ ⦃q : Quantities⦄ where
  open q use {milli_value}

  -- A quantity of CPU in thousandths, or 0 where there is none.
  unfoldable pub milli_cpu : Option ResourceList → ℤ
  milli_cpu none = pos 0
  milli_cpu (some list) = elim (get resource_cpu list) [
    | none ↦ pos 0
    | some quantity ↦ milli_value quantity
  ]

  -- The pool of a container that names none.
  unfoldable pub pool_of_namespace : String → String
  pool_of_namespace namespace =
      if namespace == namespace_system then reserved_pool else default_pool

  module _ ⦃g : GoRuntime⦄ where
    open g use {range_names}

    -- `GetContainerPoolResources(p, c)`. With no requests the limits are not read.
    unfoldable pub get_container_pool_resources : KubePod → KubeContainer → String × ℤ × ℤ
    get_container_pool_resources p c = elim c.requests [
      | none ↦ (pool_of_namespace p.namespace, pos 0, pos 0)
      | some list ↦ (
        first_pool (pool_of_namespace p.namespace)
            (range_names "GetContainerPoolResources" (keys list)),
        milli_cpu (some list),
        milli_cpu c.limits,
      )
    ]
