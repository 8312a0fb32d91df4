-- ===== src/Webhook/Mutate.antt =====
-- cmd/cpu-pool-admissionwebhook/pool-admissionwebhook.go: `mutatePods` and `serve`.
use cpu_policy_plugins_for_k.Prelude.{
  ℕ, ◌+◌, Bool, true, false, ◌&&◌, not, Option, none, some, List, [], ◌∷◌, ◌++◌, String, string_eq,
  ◌==◌, if◌then◌else◌,
}
use cpu_policy_plugins_for_k.Prelude.GoMap.{get}
use cpu_policy_plugins_for_k.Prelude.Outcome.{Outcome, ok, err, panic}
use cpu_policy_plugins_for_k.Runtime.{GoRuntime}
use cpu_policy_plugins_for_k.Kube.{Quantities, KubeContainer, KubePod, namespace_system}
use cpu_policy_plugins_for_k.Webhook.Resources.{PoolResource, add_pool_resource}
use cpu_policy_plugins_for_k.Webhook.Validate.{
  Refusal, wrong_resource, empty_request, validate_pool_resource,
}
use cpu_policy_plugins_for_k.Webhook.Patch.{PatchOp, create_op}

-- The request of a review: its id, whether it is about pods, and the pod, as decoding the object
-- gives it.
module _ ⦃q : Quantities⦄ where
  pub record Request : Type 0 where
    pub uid : String
    pub is_pods : Bool
    pub pod : Outcome Refusal KubePod

  -- `v1beta1.AdmissionResponse`: the patch is none if there is nothing to change.
  pub record Response : Type 0 where
    pub uid : String
    pub allowed : Bool
    pub patch : Option (List PatchOp)
    pub message : Option Refusal

  -- `toAdmissionResponse(err)`
  unfoldable pub to_admission_response : Refusal → Response
  to_admission_response e = record { uid = ""; allowed = false; patch = none; message = some e }

  -- The response that leaves a pod as it is, and the one with a patch.
  unfoldable pub allowed_with : List PatchOp → Response
  allowed_with [] = record { uid = ""; allowed = true; patch = none; message = none }
  allowed_with (op ∷ ops) = record {
    uid = "";
    allowed = true;
    patch = some (op ∷ ops);
    message = none;
  }

  unfoldable pub ops_of : Option PoolResource → ℕ → String → String → List PatchOp
  ops_of none i kind target = []
  ops_of (some res) i kind target = create_op res i kind target ∷ []

  module _ ⦃g : GoRuntime⦄ where
    -- A loop of `mutatePods` over containers; an error is the response.
    unfoldable pub mutate_containers :
        String → ℕ → List KubeContainer → List PatchOp → Outcome Refusal (List PatchOp)
    mutate_containers target i [] ops = ok ops
    mutate_containers target i (c ∷ rest) ops =
        let (request, limit) = add_pool_resource c in
        elim (validate_pool_resource c request limit) [
          | err e ↦ err e
          | panic ↦ panic
          | ok done ↦
              mutate_containers target (i + 1) rest
                ((ops ++ ops_of request i "requests" target) ++ ops_of limit i "limits" target)
        ]

    -- Both loops.
    unfoldable pub mutate_spec : KubePod → Outcome Refusal (List PatchOp)
    mutate_spec pod = elim (mutate_containers "initcontainers" 0 pod.init_containers []) [
      | err e ↦ err e
      | panic ↦ panic
      | ok ops ↦ mutate_containers "containers" 0 pod.containers ops
    ]

    -- The label of pods that opt in.
    unfoldable pub opted_in : KubePod → Bool
    opted_in pod = elim (get "cpu-manager-pool-policy" pod.labels) [
      | none ↦ false
      | some v ↦ v == "enabled"
    ]

    -- What `mutatePods` does with a pod.
    unfoldable pub mutate_pod : Bool → KubePod → Outcome Refusal Response
    mutate_pod opt_in pod =
        let changed : Outcome Refusal Response = elim (mutate_spec pod) [
          | err e ↦ ok (to_admission_response e)
          | panic ↦ panic
          | ok ops ↦ ok (allowed_with ops)
        ] in
        if pod.namespace == namespace_system
        then ok (allowed_with [])
        else if opt_in && not (opted_in pod)
        then ok (allowed_with [])
        else changed

    -- `mutatePods(ar, optIn)`
    unfoldable pub mutate_pods : Bool → Request → Outcome Refusal Response
    mutate_pods opt_in request =
        if request.is_pods
        then elim request.pod [
          | err e ↦ ok (to_admission_response e)
          | panic ↦ panic
          | ok pod ↦ mutate_pod opt_in pod
        ]
        else ok (to_admission_response wrong_resource)

    -- What the webhook answers: a bad request, or a review with a response.
    pub data Answer : Type 0 where
      bad_request : Answer
      answered : Response → Answer

    unfoldable pub answer_with : String → Outcome Refusal Response → Outcome Refusal Answer
    answer_with uid (ok response) = ok (answered (record response { uid = uid }))
    answer_with uid (err e) = err e
    answer_with uid panic = panic

    -- `serve(w, r, mutatePods, optIn)`, from the body, which is none if it is empty or cannot be
    -- read; decoding it gives a review, with or without a request.
    unfoldable pub serve :
        Bool → String → Option (Outcome Refusal (Option Request)) → Outcome Refusal Answer
    serve opt_in content_type none = ok bad_request
    serve opt_in content_type (some decoded) =
        let handled : Outcome Refusal Answer = elim decoded [
          | err e ↦ answer_with "" (ok (to_admission_response e))
          | panic ↦ panic
          | ok none ↦ answer_with "" (ok (to_admission_response empty_request))
          | ok (some request) ↦ answer_with request.uid (mutate_pods opt_in request)
        ] in
        if content_type == "application/json" then handled else ok bad_request
