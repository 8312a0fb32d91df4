-- ===== src/Webhook/Reviewed.antt =====
-- cmd/cpu-pool-admissionwebhook/pool-admissionwebhook.go: what a review of a pod is answered.
use cpu_policy_plugins_for_k.Prelude.{
  ℕ, ◌+◌, ◌≡◌, refl, Bool, true, false, ◌&&◌, not, Option, none, some, List, [], ◌∷◌, ◌++◌, String,
  string_eq, ◌==◌, if◌then◌else◌, ap, sym, ◌∙◌, inl, inr, Bool-cases,
}
use cpu_policy_plugins_for_k.Prelude.GoMap.{get}
use cpu_policy_plugins_for_k.Prelude.Outcome.{ok}
use cpu_policy_plugins_for_k.Runtime.{GoRuntime}
use cpu_policy_plugins_for_k.Kube.{Quantities, KubeContainer, KubePod, namespace_system}
use cpu_policy_plugins_for_k.Webhook.Resources.{add_pool_resource}
use cpu_policy_plugins_for_k.Webhook.Validate.{validate_pool_resource}
use cpu_policy_plugins_for_k.Webhook.Patch.{PatchOp, create_op, escape_name, replace_char}
use cpu_policy_plugins_for_k.Webhook.Mutate.{
  Response, allowed_with, ops_of, mutate_containers, mutate_spec, opted_in, mutate_pod, mutate_pods,
  answered, answer_with, serve,
}
use cpu_policy_plugins_for_k.Webhook.Native.{
  Plain, native, default_for, judged, validate-add_pool_resource,
}

module _ ⦃q : Quantities⦄ where
  open q use {Quantity, milli_value, new_quantity, print}

  -- Containers that name no pool, and have native CPU in their limits only if in their requests.
  abbrev pub IsNative : KubeContainer → Type 0
  IsNative c =
      Plain c.requests × Plain c.limits × (judged (native c.requests) (native c.limits) ≡ ok tt)

  abbrev pub AllNative : List KubeContainer → Type 0
  AllNative [] = Unit {0}
  AllNative (c ∷ rest) = IsNative c × AllNative rest

  -- The operation that adds native CPU's amount of the default pool, in units for thousandths, to a
  -- container's requests or limits; none without native CPU.
  abbrev pub default_op : String → ℕ → String → Option Quantity → List PatchOp
  default_op target i kind none = []
  default_op target i kind (some cpu) =
      (record {
        target = target;
        index = i;
        kind = kind;
        name = "intel.com~1cpupool.default";
        value = print (new_quantity (milli_value cpu));
      })
      ∷ []

  -- The operations of the patch for the containers from an index on: for each in turn, first for the
  -- requests, then for the limits.
  abbrev pub expected : String → ℕ → List KubeContainer → List PatchOp
  expected target i [] = []
  expected target i (c ∷ rest) =
      default_op target i "requests" (native c.requests)
      ++ (default_op target i "limits" (native c.limits) ++ expected target (i + 1) rest)

  ops_of-default_for :
      (o : Option Quantity) (i : ℕ) (kind target : String)
      → ops_of (default_for o) i kind target ≡ default_op target i kind o
  unfolding ops_of create_op escape_name replace_char
  ops_of-default_for none i kind target = refl
  ops_of-default_for (some cpu) i kind target = refl

  -- The patch of a response: none if there is no operation.
  abbrev pub patch_of : List PatchOp → Option (List PatchOp)
  patch_of [] = none
  patch_of (op ∷ ops) = some (op ∷ ops)

  abbrev pub allows : String → List PatchOp → Response
  allows uid ops = record { uid = uid; allowed = true; patch = patch_of ops; message = none }

  allowed_with-allows : (ops : List PatchOp) → allowed_with ops ≡ allows "" ops
  unfolding allowed_with
  allowed_with-allows [] = refl
  allowed_with-allows (op ∷ ops) = refl

  append_twice : (u v w x : List PatchOp) → ((u ++ v) ++ w) ++ x ≡ u ++ (v ++ (w ++ x))
  append_twice [] [] w x = refl
  append_twice [] (o ∷ v) w x = ap (λ (r : List PatchOp). o ∷ r) (append_twice [] v w x)
  append_twice (o ∷ u) v w x = ap (λ (r : List PatchOp). o ∷ r) (append_twice u v w x)

  append_nothing : (u : List PatchOp) → u ++ [] ≡ u
  append_nothing [] = refl
  append_nothing (o ∷ u) = ap (λ (r : List PatchOp). o ∷ r) (append_nothing u)

  module _ ⦃g : GoRuntime⦄ where
    mutate_step :
        (target : String) (i : ℕ) (c : KubeContainer) (rest : List KubeContainer)
        (ops : List PatchOp)
        → validate_pool_resource c (add_pool_resource c).0 (add_pool_resource c).1 ≡ ok tt
        → mutate_containers target i (c ∷ rest) ops
          ≡ mutate_containers target (i + 1) rest (
              (ops ++ ops_of (add_pool_resource c).0 i "requests" target)
              ++ ops_of (add_pool_resource c).1 i "limits" target)
    unfolding mutate_containers
    mutate_step target i c rest ops e = rw (e, mutate_containers) refl

    mutate_native :
        (target : String) (i : ℕ) (cs : List KubeContainer) (ops : List PatchOp)
        → AllNative cs
        → mutate_containers target i cs ops ≡ ok (ops ++ expected target i cs)
    unfolding mutate_containers
    mutate_native target i [] ops h = ap ok (sym (append_nothing ops))
    mutate_native target i (c ∷ rest) ops ((plain, unpooled, fine), more) =
        let (added, judgement) = validate-add_pool_resource c plain unpooled in
        mutate_step target i c rest ops (judgement ∙ fine)
        ∙ rw added (
            rw
              (
                ops_of-default_for (native c.requests) i "requests" target,
                ops_of-default_for (native c.limits) i "limits" target,
              )
              (mutate_native target (i + 1) rest _ more ∙ ap ok (append_twice ops _ _ _)))

    -- Whether a pod takes part: it is of no system namespace, and has the label where it is asked for.
    abbrev pub labelled : KubePod → Bool
    labelled pod = elim (get "cpu-manager-pool-policy" pod.labels) [
      | none ↦ false
      | some v ↦ v == "enabled"
    ]

    abbrev pub takes_part : Bool → KubePod → Bool
    takes_part opt_in pod =
        not (pod.namespace == "kube-system") && not (opt_in && not (labelled pod))

    -- The patch of a pod that takes part: init containers, at paths below `/spec/initcontainers`,
    -- then containers, at paths below `/spec/containers`.
    abbrev pub native_patch : KubePod → List PatchOp
    native_patch pod =
        expected "initcontainers" 0 pod.init_containers ++ expected "containers" 0 pod.containers

    spec_native :
        (pod : KubePod)
        → AllNative pod.init_containers
        → AllNative pod.containers
        → mutate_spec pod ≡ ok (native_patch pod)
    unfolding mutate_spec
    spec_native pod init main =
        rw (mutate_native "initcontainers" 0 pod.init_containers [] init, mutate_spec)
          (mutate_native "containers" 0 pod.containers _ main)

    abbrev pub patched : Bool → KubePod → List PatchOp
    patched opt_in pod = if takes_part opt_in pod then native_patch pod else []

    reviewed :
        (opt_in : Bool) (pod : KubePod)
        → AllNative pod.init_containers
        → AllNative pod.containers
        → mutate_pod opt_in pod ≡ ok (allows "" (patched opt_in pod))
    unfolding mutate_pod opted_in
    reviewed opt_in pod init main = elim (Bool-cases (pod.namespace == namespace_system)) [
      | inl system ↦ rw system (ap ok (allowed_with-allows []))
      | inr other ↦ elim (Bool-cases (opt_in && not (labelled pod))) [
        | inl out ↦ rw (other, out) (ap ok (allowed_with-allows []))
        | inr part ↦
            rw (other, part)
              (rw (spec_native pod init main) (ap ok (allowed_with-allows (native_patch pod))))
      ]
    ]

    -- A review in JSON of a pod that names no pool, and has native CPU in limits only where in
    -- requests, is answered under its id, and the pod is allowed. If the pod takes part, being of no
    -- system namespace and opted in where that is asked for, the patch has, for each init container
    -- and then for each container, in order, an operation for its requests and one for its limits
    -- wherever it has native CPU there: it adds the default pool under the container's index, as
    -- many units as there are thousandths of CPU. The paths of the init containers begin with
    -- `/spec/initcontainers`, and those of the containers with `/spec/containers`. Otherwise, and
    -- where no container has native CPU, there is no patch.
    pub serve_native :
        (opt_in : Bool) (uid : String) (pod : KubePod)
        → AllNative pod.init_containers
        → AllNative pod.containers
        → serve opt_in "application/json"
            (some (ok (some (record { uid = uid; is_pods = true; pod = ok pod }))))
          ≡ ok (answered (allows uid (patched opt_in pod)))
    unfolding serve mutate_pods answer_with
    serve_native opt_in uid pod init main = ap (answer_with uid) (reviewed opt_in pod init main)
