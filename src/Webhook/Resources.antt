-- ===== src/Webhook/Resources.antt =====
-- cmd/cpu-pool-admissionwebhook/pool-admissionwebhook.go: `addPoolResource`, what a container lacks
-- of native CPU and of a pool.
use Prim.Native.String.{◌++◌ as append}
use text.Mathlib.Text.{starts_with}
use cpu_policy_plugins_for_k.Prelude.{
  Bool, true, false, Option, none, some, List, [], ◌∷◌, String, string_eq, if◌then◌else◌,
}
use cpu_policy_plugins_for_k.Prelude.GoMap.{get, keys}
use cpu_policy_plugins_for_k.Runtime.{GoRuntime}
use cpu_policy_plugins_for_k.Kube.{Quantities, ResourceList, KubeContainer, resource_cpu}

abbrev pub webhook_prefix : String
webhook_prefix = "intel.com/cpupool."

abbrev pub webhook_default_pool : String
webhook_default_pool = "default"

module _ ⦃q : Quantities⦄ where
  open q use {Quantity, value, milli_value, new_quantity, new_milli_quantity}

  -- A resource to add: native CPU if `system` is set, or that of a pool.
  pub record PoolResource : Type 0 where
    pub quantity : Quantity
    pub pool : String
    pub system : Bool

  -- The loop over the list: the quantity of the first pool that comes up.
  unfoldable pub first_pooled : List String → ResourceList → Option Quantity
  first_pooled [] list = none
  first_pooled (name ∷ rest) list =
      if starts_with name webhook_prefix then get name list else first_pooled rest list

  -- What goes with native CPU and a pool, as far as they are there.
  unfoldable pub counterpart : Option Quantity → Option Quantity → Option PoolResource
  counterpart (some cpu) (some pool) = none
  counterpart none (some pool) =
      some (record { quantity = new_milli_quantity (value pool); pool = ""; system = true })
  counterpart none none = none
  counterpart (some cpu) none = some (record {
    quantity = new_quantity (milli_value cpu);
    pool = append webhook_prefix webhook_default_pool;
    system = false;
  })

  module _ ⦃g : GoRuntime⦄ where
    open g use {range_names}

    -- A list of requests or limits, if there is one.
    unfoldable pub add_to_list : Option ResourceList → Option PoolResource
    add_to_list none = none
    add_to_list (some list) =
        counterpart (get resource_cpu list)
          (first_pooled (range_names "addPoolResourceRequestOrLimit" (keys list)) list)

    -- `addPoolResourceRequestOrLimit(c, request)`; its error is nil on every return.
    unfoldable pub add_pool_resource_request_or_limit : KubeContainer → Bool → Option PoolResource
    add_pool_resource_request_or_limit c request =
        add_to_list (if request then c.requests else c.limits)

    -- `addPoolResource(c)`: what to add to the requests and to the limits
    unfoldable pub add_pool_resource : KubeContainer → Option PoolResource × Option PoolResource
    add_pool_resource c =
        (add_pool_resource_request_or_limit c true, add_pool_resource_request_or_limit c false)
