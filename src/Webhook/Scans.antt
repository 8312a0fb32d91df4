-- ===== src/Webhook/Scans.antt =====
-- cmd/cpu-pool-admissionwebhook/pool-admissionwebhook.go: what the loops over requests and limits
-- find.
use text.Mathlib.Text.{starts_with}
use cpu_policy_plugins_for_k.Prelude.{
  ◌≡◌, refl, Bool, true, false, Option, none, some, List, [], ◌∷◌, String, string_eq, ◌==◌,
  if◌then◌else◌, arith, ap, sym, ◌∙◌, Bool-cases, Option-cases, inl, inr, elem,
}
use cpu_policy_plugins_for_k.Prelude.GoMap.{get, keys, get-none_of_absent}
use cpu_policy_plugins_for_k.Prelude.Int.{int_eq}
use cpu_policy_plugins_for_k.Prelude.Outcome.{Outcome, ok}
use cpu_policy_plugins_for_k.Runtime.{GoRuntime, elem-ranged}
use cpu_policy_plugins_for_k.Kube.{Quantities, ResourceList, resource_cpu}
use cpu_policy_plugins_for_k.Webhook.Resources.{webhook_prefix, first_pooled}
use cpu_policy_plugins_for_k.Webhook.Validate.{
  Refusal, Seen, nothing_seen, note_request, note_limit, scan,
}

-- The names that are not those of pools.
abbrev pub IsPlain : String → Type 0
IsPlain name = starts_with name webhook_prefix ≡ false

module _ ⦃q : Quantities⦄ where
  open q use {Quantity, zero_quantity, milli_value}

  -- No resource of a list is that of a pool.
  abbrev pub AllPlain : ResourceList → Type 0
  AllPlain list = (name : String) → elem name (keys list) ≡ true → IsPlain name

  -- What a loop over plain resources leaves, by the native CPU of the list and whether the loop
  -- comes by it.
  abbrev pub cpu_over : Option Quantity → Bool → Seen → Seen
  cpu_over none met seen = seen
  cpu_over (some cpu) true seen = record seen { cpu = cpu }
  cpu_over (some cpu) false seen = seen

  -- The notes that only take down native CPU from plain resources.
  abbrev pub NotesCpu : (String → Quantity → Seen → Outcome Refusal Seen) → Type 0
  NotesCpu note =
      (name : String) (res : Quantity) (seen : Seen)
      → IsPlain name
      → note name res seen ≡ ok (if name == resource_cpu then record seen { cpu = res } else seen)

  pub note_request-NotesCpu : (box : String) → NotesCpu (note_request box)
  unfolding note_request
  note_request-NotesCpu box name res seen plain = ground (arith, plain)

  pub note_limit-NotesCpu : (box requested : String) → NotesCpu (note_limit box requested)
  unfolding note_limit
  note_limit-NotesCpu box requested name res seen plain = ground (arith, plain)

  pub scan_skip :
      (note : String → Quantity → Seen → Outcome Refusal Seen) (name : String) (rest : List String)
      (list : ResourceList) (seen : Seen)
      → get name list ≡ none
      → scan note (name ∷ rest) list seen ≡ scan note rest list seen
  unfolding scan
  scan_skip note name rest list seen e = rw (e, scan) refl

  pub scan_note :
      (note : String → Quantity → Seen → Outcome Refusal Seen) (name : String) (rest : List String)
      (list : ResourceList) (seen noted : Seen) (res : Quantity)
      → get name list ≡ some res
      → note name res seen ≡ ok noted
      → scan note (name ∷ rest) list seen ≡ scan note rest list noted
  unfolding scan
  scan_note note name rest list seen noted res e f = rw (e, scan) (rw (f, scan) refl)

  unmet : (o : Option Quantity) (seen : Seen) → cpu_over o false seen ≡ seen
  unmet none seen = refl
  unmet (some cpu) seen = refl

  met_twice :
      (cpu : Quantity) (again : Bool) (seen : Seen)
      → cpu_over (some cpu) again (record seen { cpu = cpu }) ≡ record seen { cpu = cpu }
  met_twice cpu true seen = refl
  met_twice cpu false seen = refl

  pub scan-plain :
      (note : String → Quantity → Seen → Outcome Refusal Seen) (ns : List String)
      (list : ResourceList) (seen : Seen)
      → NotesCpu note
      → ((name : String) → elem name ns ≡ true → IsPlain name)
      → scan note ns list seen ≡ ok (cpu_over (get resource_cpu list) (elem resource_cpu ns) seen)
  unfolding scan
  scan-plain note [] list seen notes plain = ap ok (sym (unmet (get resource_cpu list) seen))
  scan-plain note (name ∷ rest) list seen notes plain =
      let mine = plain name (ground (arith, string_eq.equal_iff name name)) in
      let ih =
        λ (s : Seen). scan-plain note rest list s notes (λ n e. plain n (ground (arith, e))) in
      elim (Bool-cases (name == resource_cpu)) [
        | inl same ↦
            let is = (string_eq.equal_iff name resource_cpu).0 same in
            elim (Option-cases (get resource_cpu list)) [
              | inl lost ↦ scan_skip note name rest list seen (rw is lost) ∙ ih seen ∙ rw lost refl
              | inr (cpu, there) ↦
                  scan_note note name rest list seen (record seen { cpu = cpu }) cpu (rw is there)
                    (notes name cpu seen mine ∙ rw same refl)
                  ∙ ih (record seen { cpu = cpu })
                  ∙ rw (there, same) (ap ok (met_twice cpu (elem resource_cpu rest) seen))
            ]
        | inr other ↦ elim (Option-cases (get name list)) [
          | inl lost ↦ scan_skip note name rest list seen lost ∙ ih seen ∙ rw other refl
          | inr (res, there) ↦
              scan_note note name rest list seen seen res there
                (notes name res seen mine ∙ rw other refl)
              ∙ ih seen
              ∙ rw other refl
        ]
      ]

  -- With no resource of a pool, `addPoolResource` finds none.
  pub first_pooled-plain :
      (ns : List String) (list : ResourceList)
      → ((name : String) → elem name ns ≡ true → IsPlain name)
      → first_pooled ns list ≡ none
  unfolding first_pooled
  first_pooled-plain [] list plain = refl
  first_pooled-plain (name ∷ rest) list plain =
      let mine = plain name (ground (arith, string_eq.equal_iff name name)) in
      rw mine (first_pooled-plain rest list (λ n e. plain n (ground (arith, e))))

  module _ ⦃g : GoRuntime⦄ where
    open g use {range_names}

    pub ranged-IsPlain :
        (loop : String) (list : ResourceList)
        → AllPlain list
        → (name : String) → elem name (range_names loop (keys list)) ≡ true
        → IsPlain name
    ranged-IsPlain loop list plain name e =
        plain name (ground (arith, elem-ranged loop name (keys list), e))

    reached :
        (loop : String) (list : ResourceList) (seen : Seen)
        → cpu_over (get resource_cpu list) (elem resource_cpu (range_names loop (keys list))) seen
          ≡ cpu_over (get resource_cpu list) true seen
    reached loop list seen = elim (Option-cases (get resource_cpu list)) [
      | inl e ↦ rw e refl
      | inr (cpu, e) ↦
          let met : elem resource_cpu (range_names loop (keys list)) ≡ true = ground (
            arith,
            elem-ranged loop resource_cpu (keys list),
            get-none_of_absent resource_cpu list,
            e,
          ) in
          rw met refl
    ]

    -- The native CPU of a list of plain resources is all that a loop finds, in whatever order.
    pub scan_ranged :
        (note : String → Quantity → Seen → Outcome Refusal Seen) (loop : String)
        (list : ResourceList)
        → NotesCpu note
        → AllPlain list
        → scan note (range_names loop (keys list)) list nothing_seen
          ≡ ok (cpu_over (get resource_cpu list) true nothing_seen)
    scan_ranged note loop list notes plain =
        scan-plain note (range_names loop (keys list)) list nothing_seen notes
          (ranged-IsPlain loop list plain)
        ∙ ap ok (reached loop list nothing_seen)
