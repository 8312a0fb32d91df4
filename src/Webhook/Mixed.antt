-- ===== src/Webhook/Mixed.antt =====
-- cmd/cpu-pool-admissionwebhook/pool-admissionwebhook.go: a request of a pool with a limit of native
-- CPU.
use Prim.Native.String.{◌++◌ as append}
use text.Mathlib.Text.{starts_with}
use cpu_policy_plugins_for_k.Prelude.{
  ℕ, ◌*◌, ◌≡◌, refl, true, false, Option, none, some, List, [], ◌∷◌, String, string_eq, ◌==◌, arith,
  ap, ◌∙◌, inl, inr, Bool-cases, Option-cases, suc, elem, count, elem-count,
}
use cpu_policy_plugins_for_k.Prelude.GoMap.{get, keys}
use cpu_policy_plugins_for_k.Prelude.Int.{pos, int_eq}
use cpu_policy_plugins_for_k.Prelude.Outcome.{ok, err}
use cpu_policy_plugins_for_k.Runtime.{GoRuntime, elem-ranged}
use cpu_policy_plugins_for_k.Kube.{Quantities, ResourceList, KubeContainer, resource_cpu}
use cpu_policy_plugins_for_k.Webhook.Resources.{
  webhook_prefix, webhook_default_pool, first_pooled, counterpart, add_to_list,
  add_pool_resource_request_or_limit, add_pool_resource,
}
use cpu_policy_plugins_for_k.Webhook.Validate.{
  Seen, nothing_seen, inconsistent_limits, note_request, note_limit, scan, replace_by, with_request,
  with_limit, scan_list, check_limits, check_totals, validate_pool_resource,
}
use cpu_policy_plugins_for_k.Webhook.Scans.{
  IsPlain, cpu_over, note_request-NotesCpu, note_limit-NotesCpu, scan-plain, scan_skip, scan_note,
}
use cpu_policy_plugins_for_k.Webhook.Several.{not_cpu}
use cpu_policy_plugins_for_k.Webhook.Native.{
  Plain, native, default_for, add_to_list-Plain, scan_list-Plain, both_scanned,
}

module _ ⦃q : Quantities⦄ where
  open q use {
    Quantity, zero_quantity, value, milli_value, new_quantity, new_milli_quantity, value-zero,
    milli_value-zero, milli_value-new, milli_value-new_milli,
  }

  -- A list in which one resource is that of a pool, and none is native CPU; there may be others.
  pub record OnePool (name : String) (a : Quantity) (list : ResourceList) : Type 0 where
    pub pooled : starts_with name webhook_prefix ≡ true
    pub amount : get name list ≡ some a
    pub once : count name (keys list) ≡ 1
    pub others :
        (other : String)
        → elem other (keys list) ≡ true
        → (other == name) ≡ false
        → starts_with other webhook_prefix ≡ false
    pub no_cpu : get resource_cpu list ≡ none

  module _ (name : String) (a : Quantity) (list : ResourceList) (one : OnePool name a list) where
    found_pool :
        (ns : List String)
        → ((other : String) → elem other ns ≡ true → elem other (keys list) ≡ true)
        → elem name ns ≡ true
        → first_pooled ns list ≡ some a
    unfolding first_pooled
    found_pool [] inside e = absurd (cc (e))
    found_pool (n ∷ rest) inside e =
        let here : elem n (n ∷ rest) ≡ true = ground (arith, string_eq.equal_iff n n) in
        elim (Bool-cases (n == name)) [
          | inl same ↦ rw ((string_eq.equal_iff n name).0 same) (rw one.pooled one.amount)
          | inr other ↦
              rw (one.others n (inside n here) other)
                (found_pool rest (λ m h. inside m (ground arith)) (ground (arith, e, other)))
        ]

    -- Behind the pool's resource there is nothing to note.
    noted_pool :
        (box : String) (ns : List String) (seen : Seen)
        → ((other : String) → elem other ns ≡ true → elem other (keys list) ≡ true)
        → count name ns ≡ 0
        → scan (note_request box) ns list seen ≡ ok seen
    noted_pool box ns seen inside none_left =
        scan-plain (note_request box) ns list seen (note_request-NotesCpu box) (λ other h.
          one.others other (inside other h) (elim (Bool-cases (other == name)) [
            | inr apart ↦ apart
            | inl same ↦ absurd (
                ground (
                  arith,
                  h,
                  none_left,
                  elem-count other ns,
                  ap (λ (m : String). count m ns) ((string_eq.equal_iff other name).0 same),
                ))
          ]))
        ∙ rw one.no_cpu refl

    scan_pool :
        (box : String) (ns : List String) (seen : Seen)
        → ((other : String) → elem other ns ≡ true → elem other (keys list) ≡ true)
        → count name ns ≡ 1
        → milli_value seen.pool ≡ pos 0
        → scan (note_request box) ns list seen ≡ ok (record seen { pool = a; pool_name = name })
    unfolding note_request
    scan_pool box [] seen inside once fresh = absurd (cc (once))
    scan_pool box (n ∷ rest) seen inside once fresh =
        let here : elem n (n ∷ rest) ≡ true = ground (arith, string_eq.equal_iff n n) in
        let later : (other : String) → elem other rest ≡ true → elem other (keys list) ≡ true =
          λ other h. inside other (ground arith) in
        elim (Bool-cases (n == name)) [
          | inl same ↦
              let is = (string_eq.equal_iff n name).0 same in
              scan_note (note_request box) n rest list seen
                (record seen { pool = a; pool_name = name }) a (rw is one.amount)
                (rw is (rw (not_cpu name one.pooled) (rw one.pooled (rw fresh refl))))
              ∙ noted_pool box rest (record seen { pool = a; pool_name = name }) later
                  (ground (arith, once, same))
          | inr other ↦
              let plain : IsPlain n = one.others n (inside n here) other in
              let on = scan_pool box rest seen later (ground (arith, once, other)) fresh in
              elim (Option-cases (get n list)) [
                | inl lost ↦ scan_skip (note_request box) n rest list seen lost ∙ on
                | inr (res, there) ↦ elim (Bool-cases (n == resource_cpu)) [
                  | inl cpu ↦ absurd (
                      cc (
                        ap (λ (m : String). get m list)
                            ((string_eq.equal_iff n resource_cpu).0 cpu),
                        there,
                        one.no_cpu,
                      ))
                  | inr not_native ↦
                      scan_note (note_request box) n rest list seen seen res there
                        (note_request-NotesCpu box n res seen plain ∙ rw not_native refl)
                      ∙ on
                ]
              ]
        ]

  module _ ⦃g : GoRuntime⦄ where
    open g use {range_names, range_names-SameItems}

    ranged_inside :
        (loop : String) (list : ResourceList) (other : String)
        → elem other (range_names loop (keys list)) ≡ true
        → elem other (keys list) ≡ true
    ranged_inside loop list other h = ground (arith, h, elem-ranged loop other (keys list))

    -- What is added to the requests: native CPU.
    added_request :
        (name : String) (a : Quantity) (list : ResourceList)
        → OnePool name a list
        → add_to_list (some list)
          ≡ some (record { quantity = new_milli_quantity (value a); pool = ""; system = true })
    unfolding add_to_list counterpart
    added_request name a list one =
        let loop : String = "addPoolResourceRequestOrLimit" in
        rw
          (
            one.no_cpu,
            found_pool name a list one (range_names loop (keys list)) (ranged_inside loop list) (
                ground (
                  arith,
                  elem-ranged loop name (keys list),
                  elem-count name (keys list),
                  one.once,
                )),
          )
          refl

    scanned_request :
        (box name : String) (a : Quantity) (list : ResourceList)
        → OnePool name a list
        → scan_list "validatePoolResource requests" (note_request box) (some list)
          ≡ ok (record { cpu = zero_quantity; pool = a; pool_name = name })
    unfolding scan_list
    scanned_request box name a list one =
        let loop : String = "validatePoolResource requests" in
        scan_pool name a list one box (range_names loop (keys list)) nothing_seen
          (ranged_inside loop list) (range_names-SameItems loop (keys list) name ∙ one.once)
          milli_value-zero

    misplaced :
        (c : KubeContainer) (a b : Quantity) (n : ℕ) (name pool : String)
        → milli_value b ≡ pos (suc n)
        → check_totals c
            (some (record { quantity = new_milli_quantity (value a); pool = ""; system = true }))
            (some (record { quantity = new_quantity (milli_value b); pool = pool; system = false }))
            (record { cpu = zero_quantity; pool = a; pool_name = name })
            (record { cpu = b; pool = zero_quantity; pool_name = "" })
          ≡ err (inconsistent_limits c.name (pos (1000 * suc n)) (pos 0))
    unfolding check_totals check_limits with_request with_limit replace_by
    misplaced c a b n name pool some_of = rw some_of (
        ground (
          arith,
          milli_value-new_milli (value a),
          milli_value-new (suc n),
          value-zero,
          int_eq.equal_iff (value a) (value a),
        ))

    pub validate_mixed_refuses :
        (c : KubeContainer) (list : ResourceList) (name : String) (a b : Quantity) (n : ℕ)
        → c.requests ≡ some list
        → OnePool name a list
        → Plain c.limits
        → native c.limits ≡ some b
        → milli_value b ≡ pos (suc n)
        → validate_pool_resource c (add_pool_resource c).0 (add_pool_resource c).1
          ≡ err (inconsistent_limits c.name (pos (1000 * suc n)) (pos 0))
    unfolding add_pool_resource add_pool_resource_request_or_limit
    validate_mixed_refuses c list name a b n asks one unpooled limits some_of =
        let request = ap add_to_list asks ∙ added_request name a list one in
        let limit = add_to_list-Plain c.limits unpooled ∙ ap default_for limits in
        let asked =
          ap (scan_list "validatePoolResource requests" (note_request c.name)) asks
          ∙ scanned_request c.name name a list one in
        let limited =
          scan_list-Plain "validatePoolResource limits" (note_limit c.name name) c.limits
            (note_limit-NotesCpu c.name name) unpooled
          ∙ ap (λ (o : Option Quantity). ok (cpu_over o true nothing_seen)) limits in
        rw (request, limit)
          (both_scanned c _ _ _ _ asked limited
            ∙ misplaced c a b n name (append webhook_prefix webhook_default_pool) some_of)
