-- ===== src/Webhook/Native.antt =====
-- cmd/cpu-pool-admissionwebhook/pool-admissionwebhook.go: containers that ask for native CPU only.
use Prim.Native.String.{◌++◌ as append}
use cpu_policy_plugins_for_k.Prelude.{
  ◌≡◌, refl, true, false, Option, none, some, String, string_eq, arith, ap, ◌∙◌,
}
use cpu_policy_plugins_for_k.Prelude.GoMap.{get}
use cpu_policy_plugins_for_k.Prelude.Int.{int_eq}
use cpu_policy_plugins_for_k.Prelude.Outcome.{Outcome, ok, panic}
use cpu_policy_plugins_for_k.Runtime.{GoRuntime}
use cpu_policy_plugins_for_k.Kube.{Quantities, ResourceList, KubeContainer, resource_cpu}
use cpu_policy_plugins_for_k.Webhook.Resources.{
  PoolResource, webhook_prefix, webhook_default_pool, counterpart, add_to_list,
  add_pool_resource_request_or_limit, add_pool_resource,
}
use cpu_policy_plugins_for_k.Webhook.Validate.{
  Refusal, Seen, nothing_seen, note_request, note_limit, replace_by, with_request, with_limit,
  scan_list, check_limits, check_totals, validate_pool_resource,
}
use cpu_policy_plugins_for_k.Webhook.Scans.{
  AllPlain, NotesCpu, cpu_over, note_request-NotesCpu, note_limit-NotesCpu, first_pooled-plain,
  ranged-IsPlain, scan_ranged,
}

module _ ⦃q : Quantities⦄ where
  open q use {
    Quantity, zero_quantity, value, milli_value, new_quantity, value-zero, milli_value-zero,
    value-new,
  }

  -- A list, if there is one, with no resource of a pool.
  abbrev pub Plain : Option ResourceList → Type 0
  Plain none = Unit {0}
  Plain (some list) = AllPlain list

  -- The native CPU of a list.
  abbrev pub native : Option ResourceList → Option Quantity
  native none = none
  native (some list) = get resource_cpu list

  -- The same amount of the default pool, in units for thousandths.
  abbrev pub default_for : Option Quantity → Option PoolResource
  default_for none = none
  default_for (some cpu) = some (record {
    quantity = new_quantity (milli_value cpu);
    pool = append webhook_prefix webhook_default_pool;
    system = false;
  })

  counterpart_native : (o : Option Quantity) → counterpart o none ≡ default_for o
  unfolding counterpart
  counterpart_native none = refl
  counterpart_native (some cpu) = refl

  -- Limits without a request leave the webhook with a nil pointer.
  abbrev pub judged : Option Quantity → Option Quantity → Outcome Refusal (Unit {0})
  judged none (some limit) = panic
  judged none none = ok tt
  judged (some cpu) limit = ok tt

  module _ ⦃g : GoRuntime⦄ where
    pub add_to_list-Plain :
        (o : Option ResourceList) → Plain o → add_to_list o ≡ default_for (native o)
    unfolding add_to_list
    add_to_list-Plain none plain = refl
    add_to_list-Plain (some list) plain =
        ap (counterpart (get resource_cpu list))
          (first_pooled-plain _ list (ranged-IsPlain "addPoolResourceRequestOrLimit" list plain))
        ∙ counterpart_native (get resource_cpu list)

    pub scan_list-Plain :
        (loop : String) (note : String → Quantity → Seen → Outcome Refusal Seen)
        (o : Option ResourceList)
        → NotesCpu note
        → Plain o
        → scan_list loop note o ≡ ok (cpu_over (native o) true nothing_seen)
    unfolding scan_list
    scan_list-Plain loop note none notes plain = refl
    scan_list-Plain loop note (some list) notes plain = scan_ranged note loop list notes plain

    totals :
        (c : KubeContainer) (cpu limit : Option Quantity)
        → check_totals c
            (default_for cpu)
            (default_for limit)
            (cpu_over cpu true nothing_seen)
            (cpu_over limit true nothing_seen)
          ≡ judged cpu limit
    unfolding check_totals check_limits with_request with_limit replace_by
    totals c none none = ground (arith, value-zero, milli_value-zero)
    totals c none (some l) = ground (arith, value-zero, milli_value-zero)
    totals c (some a) none = ground (
      arith,
      value-zero,
      milli_value-zero,
      value-new (milli_value a),
      int_eq.equal_iff (milli_value a) (milli_value a),
    )
    totals c (some a) (some l) = ground (
      arith,
      value-new (milli_value a),
      value-new (milli_value l),
      int_eq.equal_iff (milli_value a) (milli_value a),
      int_eq.equal_iff (milli_value l) (milli_value l),
    )

    pub both_scanned :
        (c : KubeContainer) (request limit : Option PoolResource) (asked limits : Seen)
        → scan_list "validatePoolResource requests" (note_request c.name) c.requests ≡ ok asked
        → scan_list "validatePoolResource limits" (note_limit c.name asked.pool_name) c.limits
          ≡ ok limits
        → validate_pool_resource c request limit ≡ check_totals c request limit asked limits
    unfolding validate_pool_resource
    both_scanned c request limit asked limits e f =
        rw (e, validate_pool_resource) (rw (f, validate_pool_resource) refl)

    -- A container whose requests and limits name no pool gets the default pool added wherever it has
    -- native CPU, in units for its thousandths, and is accepted; but one that has native CPU in its
    -- limits and not in its requests makes the webhook dereference a nil pointer. The order in
    -- which the lists are visited makes no difference.
    pub validate-add_pool_resource :
        (c : KubeContainer)
        → Plain c.requests
        → Plain c.limits
        → (add_pool_resource c ≡ (default_for (native c.requests), default_for (native c.limits)))
          × (validate_pool_resource c (add_pool_resource c).0 (add_pool_resource c).1
              ≡ judged (native c.requests) (native c.limits))
    unfolding add_pool_resource add_pool_resource_request_or_limit
    validate-add_pool_resource c plain unpooled =
        let asked = add_to_list-Plain c.requests plain in
        let limited = add_to_list-Plain c.limits unpooled in
        (
          rw (asked, limited) refl,
          rw (asked, limited)
              (both_scanned c (default_for (native c.requests)) (default_for (native c.limits))
                  (cpu_over (native c.requests) true nothing_seen)
                  (cpu_over (native c.limits) true nothing_seen)
                  (scan_list-Plain _ _ c.requests (note_request-NotesCpu c.name) plain)
                  (scan_list-Plain _ _ c.limits (note_limit-NotesCpu c.name _) unpooled)
                ∙ totals c (native c.requests) (native c.limits)),
        )
