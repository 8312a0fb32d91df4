-- ===== src/Webhook/Validate.antt =====
-- cmd/cpu-pool-admissionwebhook/pool-admissionwebhook.go: `validatePoolResource`.
use text.Mathlib.Text.{starts_with}
use cpu_policy_plugins_for_k.Prelude.{
  Bool, Option, none, some, List, [], ◌∷◌, String, string_eq, ◌==◌, if◌then◌else◌,
}
use cpu_policy_plugins_for_k.Prelude.GoMap.{get, keys}
use cpu_policy_plugins_for_k.Prelude.Int.{ℤ, pos, int_eq}
use cpu_policy_plugins_for_k.Prelude.Outcome.{Outcome, ok, err, panic}
use cpu_policy_plugins_for_k.Runtime.{GoRuntime}
use cpu_policy_plugins_for_k.Kube.{Quantities, ResourceList, KubeContainer, resource_cpu}
use cpu_policy_plugins_for_k.Webhook.Resources.{PoolResource, webhook_prefix}

-- The errors of the webhook, by the name of the container; `bad_pod` is that of a pod that cannot
-- be decoded.
pub data Refusal : Type 0 where
  multiple_pools : String → Refusal
  different_pools : String → Refusal
  inconsistent_requests : String → ℤ → ℤ → Refusal
  inconsistent_limits : String → ℤ → ℤ → Refusal
  wrong_resource : Refusal
  bad_pod : Refusal
  bad_review : Refusal
  empty_request : Refusal

module _ ⦃q : Quantities⦄ where
  open q use {Quantity, zero_quantity, value, milli_value}

  -- What a loop has found: native CPU, that of a pool, and the name of the pool's resource.
  pub record Seen : Type 0 where
    pub cpu : Quantity
    pub pool : Quantity
    pub pool_name : String

  abbrev pub nothing_seen : Seen
  nothing_seen = record { cpu = zero_quantity; pool = zero_quantity; pool_name = "" }

  -- What the loop over the requests does with a resource.
  unfoldable pub note_request : String → String → Quantity → Seen → Outcome Refusal Seen
  note_request box name res seen =
      if name == resource_cpu
      then ok (record seen { cpu = res })
      else if starts_with name webhook_prefix
      then if milli_value seen.pool == pos 0
        then ok (record seen { pool = res; pool_name = name })
        else err (multiple_pools box)
      else ok seen

  -- What the loop over the limits does with a resource, by the name of the requested pool.
  unfoldable pub note_limit : String → String → String → Quantity → Seen → Outcome Refusal Seen
  note_limit box requested name res seen =
      if name == resource_cpu
      then ok (record seen { cpu = res })
      else if starts_with name webhook_prefix
      then if milli_value seen.pool == pos 0
        then if requested == name
          then ok (record seen { pool = res; pool_name = name })
          else err (different_pools box)
        else err (multiple_pools box)
      else ok seen

  -- A loop over a list of resources, in the order of its names.
  unfoldable pub scan :
      (String → Quantity → Seen → Outcome Refusal Seen)
      → List String
      → ResourceList
      → Seen
      → Outcome Refusal Seen
  scan note [] list seen = ok seen
  scan note (name ∷ rest) list seen = elim (get name list) [
    | none ↦ scan note rest list seen
    | some res ↦ elim (note name res seen) [
      | ok noted ↦ scan note rest list noted
      | err e ↦ err e
      | panic ↦ panic
    ]
  ]

  -- What is added replaces native CPU, or that of the pool.
  unfoldable pub replace_by : Bool → Quantity → Seen → Seen
  replace_by system quantity seen =
      if system then record seen { cpu = quantity } else record seen { pool = quantity }

  unfoldable pub with_request : Option PoolResource → Seen → Seen
  with_request none seen = seen
  with_request (some request) seen = replace_by request.system request.quantity seen

  -- What is added to the limits goes where the request says: without one it is a nil dereference.
  unfoldable pub with_limit :
      Option PoolResource → Option PoolResource → Seen → Outcome Refusal Seen
  with_limit request none seen = ok seen
  with_limit none (some limit) seen = panic
  with_limit (some request) (some limit) seen = ok (replace_by request.system limit.quantity seen)

  module _ ⦃g : GoRuntime⦄ where
    open g use {range_names}

    -- A loop over a list that may be nil.
    unfoldable pub scan_list :
        String
        → (String → Quantity → Seen → Outcome Refusal Seen)
        → Option ResourceList
        → Outcome Refusal Seen
    scan_list loop note none = ok nothing_seen
    scan_list loop note (some list) = scan note (range_names loop (keys list)) list nothing_seen

    -- The last test of `validatePoolResource`.
    unfoldable pub check_limits : KubeContainer → Outcome Refusal Seen → Outcome Refusal (Unit {0})
    check_limits c (err e) = err e
    check_limits c panic = panic
    check_limits c (ok limits) =
        if value limits.pool == milli_value limits.cpu
        then ok tt
        else err (inconsistent_limits c.name (milli_value limits.cpu) (value limits.pool))

    -- The tests of `validatePoolResource` once both loops are through.
    unfoldable pub check_totals :
        KubeContainer
        → Option PoolResource
        → Option PoolResource
        → Seen
        → Seen
        → Outcome Refusal (Unit {0})
    check_totals c request limit requests limits =
        let asked = with_request request requests in
        if value asked.pool == milli_value asked.cpu
        then check_limits c (with_limit request limit limits)
        else err (inconsistent_requests c.name (milli_value asked.cpu) (value asked.pool))

    -- `validatePoolResource(c, request, limit)`
    unfoldable pub validate_pool_resource :
        KubeContainer → Option PoolResource → Option PoolResource → Outcome Refusal (Unit {0})
    validate_pool_resource c request limit =
        elim (scan_list "validatePoolResource requests" (note_request c.name) c.requests) [
          | err e ↦ err e
          | panic ↦ panic
          | ok requests ↦
              elim (scan_list "validatePoolResource limits" (note_limit c.name requests.pool_name)
                c.limits) [
                  | err e ↦ err e
                  | panic ↦ panic
                  | ok limits ↦ check_totals c request limit requests limits
                ]
        ]
