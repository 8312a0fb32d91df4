-- ===== src/Webhook/Several.antt =====
-- cmd/cpu-pool-admissionwebhook/pool-admissionwebhook.go: containers that ask for more than one pool.
use text.Mathlib.Text.{starts_with}
use cpu_policy_plugins_for_k.Prelude.{
  ◌≡◌, refl, true, false, Option, none, some, List, [], ◌∷◌, String, string_eq, ◌==◌, arith, ap,
  sym, ◌∙◌, Bool-cases, Option-cases, inl, inr, elem,
}
use cpu_policy_plugins_for_k.Prelude.GoMap.{get, keys, get-none_of_absent}
use cpu_policy_plugins_for_k.Prelude.Int.{pos, int_eq}
use cpu_policy_plugins_for_k.Prelude.Outcome.{ok, err}
use cpu_policy_plugins_for_k.Runtime.{GoRuntime, elem-ranged}
use cpu_policy_plugins_for_k.Kube.{Quantities, ResourceList, KubeContainer, resource_cpu}
use cpu_policy_plugins_for_k.Webhook.Resources.{PoolResource, webhook_prefix}
use cpu_policy_plugins_for_k.Webhook.Validate.{
  Refusal, multiple_pools, Seen, nothing_seen, note_request, scan, scan_list,
  validate_pool_resource,
}

module _ ⦃q : Quantities⦄ where
  open q use {Quantity, milli_value}

  -- A pool's resource in a list, of some amount.
  abbrev pub Asked : String → ResourceList → Type 0
  Asked name list =
      (starts_with name webhook_prefix ≡ true)
      × ((a : Quantity) × (get name list ≡ some a) × ((milli_value a == pos 0) ≡ false))

  pub not_cpu :
      (name : String) → starts_with name webhook_prefix ≡ true → (name == resource_cpu) ≡ false
  not_cpu name pooled = elim (Bool-cases (name == resource_cpu)) [
    | inr other ↦ other
    | inl same ↦
        let is = (string_eq.equal_iff name resource_cpu).0 same in
        absurd (cc (ap (λ (n : String). starts_with n webhook_prefix) is, pooled))
  ]

  not_same :
      (name b : String)
      → starts_with name webhook_prefix ≡ false
      → starts_with b webhook_prefix ≡ true
      → (name == b) ≡ false
  not_same name b plain pooled = elim (Bool-cases (name == b)) [
    | inr other ↦ other
    | inl same ↦
        let is = (string_eq.equal_iff name b).0 same in
        absurd (cc (ap (λ (n : String). starts_with n webhook_prefix) is, pooled, plain))
  ]

  module _ (box : String) (list : ResourceList) where
    scan_skip :
        (name : String) (rest : List String) (seen : Seen)
        → get name list ≡ none
        → scan (note_request box) (name ∷ rest) list seen ≡ scan (note_request box) rest list seen
    unfolding scan
    scan_skip name rest seen e = rw (e, scan) refl

    scan_ok :
        (name : String) (rest : List String) (seen noted : Seen) (res : Quantity)
        → get name list ≡ some res
        → note_request box name res seen ≡ ok noted
        → scan (note_request box) (name ∷ rest) list seen ≡ scan (note_request box) rest list noted
    unfolding scan
    scan_ok name rest seen noted res e f = rw (e, scan) (rw (f, scan) refl)

    scan_err :
        (name : String) (rest : List String) (seen : Seen) (res : Quantity)
        → get name list ≡ some res
        → note_request box name res seen ≡ err (multiple_pools box)
        → scan (note_request box) (name ∷ rest) list seen ≡ err (multiple_pools box)
    unfolding scan
    scan_err name rest seen res e f = rw (e, scan) (rw (f, scan) refl)

    -- Once a pool is found with some amount, another pool is refused.
    second_refused :
        (b : String) (ns : List String) (seen : Seen)
        → (milli_value seen.pool == pos 0) ≡ false
        → Asked b list
        → elem b ns ≡ true
        → scan (note_request box) ns list seen ≡ err (multiple_pools box)
    unfolding note_request
    second_refused b [] seen found ask e = absurd (cc (e))
    second_refused b (name ∷ rest) seen found ask e =
        let pooled = ask.0 in
        let at = ask.1.1 in
        elim (Option-cases (get name list)) [
          | inl lost ↦
              let later : elem b rest ≡ true =
                ground (arith, e, string_eq.equal_iff name b, lost, at) in
              scan_skip name rest seen lost ∙ second_refused b rest seen found ask later
          | inr (res, there) ↦ elim (Bool-cases (starts_with name webhook_prefix)) [
            | inl also ↦
                scan_err name rest seen res there (rw (not_cpu name also) (rw also (rw found refl)))
            | inr plain ↦
                let later : elem b rest ≡ true = ground (arith, e, not_same name b plain pooled) in
                elim (Bool-cases (name == resource_cpu)) [
                  | inl cpu ↦
                      scan_ok name rest seen (record seen { cpu = res }) res there (rw cpu refl)
                      ∙ second_refused b rest (record seen { cpu = res }) found ask later
                  | inr other ↦
                      scan_ok name rest seen seen res there (rw other (rw plain refl))
                      ∙ second_refused b rest seen found ask later
                ]
          ]
        ]

    -- Of two pools with some amount each, the second that comes up is refused, whatever the order.
    both_refused :
        (a b : String) (ns : List String) (seen : Seen)
        → (a == b) ≡ false
        → Asked a list
        → Asked b list
        → elem a ns ≡ true
        → elem b ns ≡ true
        → scan (note_request box) ns list seen ≡ err (multiple_pools box)
    unfolding note_request
    both_refused a b [] seen differ ask also e f = absurd (cc (e))
    both_refused a b (name ∷ rest) seen differ ask also e f =
        let at = ask.1.1 in
        let there = also.1.1 in
        elim (Option-cases (get name list)) [
          | inl lost ↦
              scan_skip name rest seen lost
              ∙ both_refused a b rest seen differ ask also
                  (ground (arith, e, string_eq.equal_iff name a, lost, at))
                  (ground (arith, f, string_eq.equal_iff name b, lost, there))
          | inr (res, here) ↦ elim (Bool-cases (starts_with name webhook_prefix)) [
            | inr plain ↦
                let later : elem a rest ≡ true = ground (arith, e, not_same name a plain ask.0) in
                let too : elem b rest ≡ true = ground (arith, f, not_same name b plain also.0) in
                elim (Bool-cases (name == resource_cpu)) [
                  | inl cpu ↦
                      scan_ok name rest seen (record seen { cpu = res }) res here (rw cpu refl)
                      ∙ both_refused a b rest (record seen { cpu = res }) differ ask also later too
                  | inr other ↦
                      scan_ok name rest seen seen res here (rw other (rw plain refl))
                      ∙ both_refused a b rest seen differ ask also later too
                ]
            | inl pooled ↦ elim (Bool-cases (milli_value seen.pool == pos 0)) [
              | inr found ↦
                  scan_err name rest seen res here
                    (rw (not_cpu name pooled) (rw pooled (rw found refl)))
              | inl none_yet ↦
                  let noted = record seen { pool = res; pool_name = name } in
                  scan_ok name rest seen noted res here
                    (rw (not_cpu name pooled) (rw pooled (rw none_yet refl)))
                  ∙ elim (Bool-cases (name == a)) [
                    | inl is_a ↦
                        let named = (string_eq.equal_iff name a).0 is_a in
                        let same : ask.1.0 ≡ res = ground (arith, at, here, named) in
                        second_refused b rest noted (rw (sym same) ask.1.2) also
                          (ground (arith, f, named, differ))
                    | inr not_a ↦ elim (Bool-cases (name == b)) [
                      | inl is_b ↦
                          let named = (string_eq.equal_iff name b).0 is_b in
                          let same : also.1.0 ≡ res = ground (arith, there, here, named) in
                          second_refused a rest noted (rw (sym same) also.1.2) ask
                            (ground (arith, e, not_a))
                      | inr not_b ↦
                          both_refused a b rest noted differ ask also (ground (arith, e, not_a))
                            (ground (arith, f, not_b))
                    ]
                  ]
            ]
          ]
        ]

  module _ ⦃g : GoRuntime⦄ where
    open g use {range_names}

    refused_early :
        (c : KubeContainer) (request limit : Option PoolResource) (e : Refusal)
        → scan_list "validatePoolResource requests" (note_request c.name) c.requests ≡ err e
        → validate_pool_resource c request limit ≡ err e
    unfolding validate_pool_resource
    refused_early c request limit e f = rw (f, validate_pool_resource) refl

    -- A container that requests CPU of two pools, some amount of each, is refused for that, whatever
    -- is to be added to it, whatever its limits are, and in whatever order its requests are visited.
    pub validate_pool_resource-several :
        (c : KubeContainer) (request limit : Option PoolResource) (list : ResourceList)
        (a b : String)
        → c.requests ≡ some list
        → (a == b) ≡ false
        → Asked a list
        → Asked b list
        → validate_pool_resource c request limit ≡ err (multiple_pools c.name)
    unfolding scan_list
    validate_pool_resource-several c request limit list a b is differ ask also =
        let loop : String = "validatePoolResource requests" in
        let listed : (name : String)
            → Asked name list
            → elem name (range_names loop (keys list)) ≡ true =
          λ name there.
            ground
              (arith, elem-ranged loop name (keys list), get-none_of_absent name list, there.1.1) in
        refused_early c request limit (multiple_pools c.name) (
          rw is (
            both_refused c.name list a b (range_names loop (keys list)) nothing_seen differ ask also
              (listed a ask) (listed b also)))
