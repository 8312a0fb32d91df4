-- ===== src/Webhook/Tests.antt =====
-- cmd/cpu-pool-admissionwebhook/pool-admissionwebhook.go: the theorems at concrete containers.
use cpu_policy_plugins_for_k.Prelude.{
  ◌≡◌, refl, true, none, some, [], ◌∷◌, string_eq, ◌==◌, arith, Bool-cases, inl, inr, sym,
}
use cpu_policy_plugins_for_k.Prelude.GoMap.{get}
use cpu_policy_plugins_for_k.Prelude.Int.{pos}
use cpu_policy_plugins_for_k.Prelude.Outcome.{ok, err}
use cpu_policy_plugins_for_k.Allocator.Tests.{runtime}
use cpu_policy_plugins_for_k.Kube.{Quantities, ResourceList, KubeContainer, KubePod}
use cpu_policy_plugins_for_k.Kube.Milli.{amounts, units, millis}
use cpu_policy_plugins_for_k.Webhook.Resources.{add_pool_resource}
use cpu_policy_plugins_for_k.Webhook.Validate.{
  multiple_pools, inconsistent_limits, validate_pool_resource,
}
use cpu_policy_plugins_for_k.Webhook.Patch.{replace_char, escape_name}
use cpu_policy_plugins_for_k.Webhook.Mutate.{answered, serve}
use cpu_policy_plugins_for_k.Webhook.Escaping.{unescape, unescape-escape_name}
use cpu_policy_plugins_for_k.Webhook.Native.{
  Plain, native, default_for, judged, validate-add_pool_resource,
}
use cpu_policy_plugins_for_k.Webhook.Several.{Asked, validate_pool_resource-several}
use cpu_policy_plugins_for_k.Webhook.Mixed.{OnePool, validate_mixed_refuses}
use cpu_policy_plugins_for_k.Webhook.Reviewed.{AllNative, allows, patched, serve_native}

instance abbrev quantities : Quantities
quantities = amounts

-- The name that a patch of the default pool has in its path.
escaped_pool : escape_name "intel.com/cpupool.default" ≡ "intel.com~1cpupool.default"
unfolding escape_name replace_char
escaped_pool = refl

unescape-escape_name_example : unescape (escape_name "a~/b~1") ≡ "a~/b~1"
unescape-escape_name_example = unescape-escape_name "a~/b~1"

abbrev memory_and_cpu : ResourceList
memory_and_cpu = ("memory", units (pos 1)) ∷ ("cpu", millis (pos 500)) ∷ []

abbrev plain_box : KubeContainer
plain_box = record { name = "main"; requests = some memory_and_cpu; limits = some memory_and_cpu }

memory_and_cpu-Plain : Plain (some memory_and_cpu)
memory_and_cpu-Plain name listed = elim (Bool-cases ("memory" == name)) [
  | inl e ↦ rw (sym ((string_eq.equal_iff "memory" name).0 e)) refl
  | inr other ↦ rw (sym ((string_eq.equal_iff "cpu" name).0 (ground (arith, listed, other)))) refl
]

validate-add_pool_resource_example :
    (add_pool_resource plain_box
      ≡ (default_for (native plain_box.requests), default_for (native plain_box.limits)))
    × (validate_pool_resource plain_box
          (add_pool_resource plain_box).0
          (add_pool_resource plain_box).1
        ≡ judged (native plain_box.requests) (native plain_box.limits))
validate-add_pool_resource_example =
    validate-add_pool_resource plain_box memory_and_cpu-Plain memory_and_cpu-Plain

abbrev pod : KubePod
pod = record {
  namespace = "apps";
  labels = ("cpu-manager-pool-policy", "enabled") ∷ [];
  init_containers = plain_box ∷ [];
  containers = plain_box ∷ [];
}

pod-AllNative : AllNative pod.containers
unfolding get
pod-AllNative = ((memory_and_cpu-Plain, memory_and_cpu-Plain, refl), tt)

serve_native_example :
    serve true "application/json"
      (some (ok (some (record { uid = "17"; is_pods = true; pod = ok pod }))))
    ≡ ok (answered (allows "17" (patched true pod)))
serve_native_example = serve_native true "17" pod pod-AllNative pod-AllNative

abbrev two_pools : ResourceList
two_pools =
    ("intel.com/cpupool.a", units (pos 1000)) ∷ ("intel.com/cpupool.b", units (pos 1000)) ∷ []

abbrev greedy : KubeContainer
greedy = record { name = "main"; requests = some two_pools; limits = none }

asks_a : Asked "intel.com/cpupool.a" two_pools
unfolding get
asks_a = (refl, (units (pos 1000), refl, refl))

asks_b : Asked "intel.com/cpupool.b" two_pools
unfolding get
asks_b = (refl, (units (pos 1000), refl, refl))

validate_pool_resource-several_example :
    validate_pool_resource greedy none none ≡ err (multiple_pools "main")
validate_pool_resource-several_example =
    validate_pool_resource-several greedy none none two_pools "intel.com/cpupool.a"
      "intel.com/cpupool.b" refl refl asks_a asks_b

-- A container that asks for half a CPU of the default pool and for memory, and limits native CPU.
abbrev default_and_memory : ResourceList
default_and_memory =
    ("memory", units (pos 64)) ∷ ("intel.com/cpupool.default", units (pos 500)) ∷ []

abbrev half_native : KubeContainer
half_native = record {
  name = "main";
  requests = some default_and_memory;
  limits = some memory_and_cpu;
}

default_and_memory-OnePool :
    OnePool "intel.com/cpupool.default" (units (pos 500)) default_and_memory
unfolding get
default_and_memory-OnePool = record {
  pooled = refl;
  amount = refl;
  once = refl;
  others = λ other h differ. elim (Bool-cases ("memory" == other)) [
    | inl e ↦ rw (sym ((string_eq.equal_iff "memory" other).0 e)) refl
    | inr apart ↦ absurd (
        ground (
          arith,
          h,
          differ,
          apart,
          string_eq.equal_iff "intel.com/cpupool.default" other,
          string_eq.equal_iff other "intel.com/cpupool.default",
        ))
  ];
  no_cpu = refl;
}

validate_mixed_refuses_example :
    validate_pool_resource half_native
      (add_pool_resource half_native).0
      (add_pool_resource half_native).1
    ≡ err (inconsistent_limits "main" (pos 500_000) (pos 0))
unfolding get
validate_mixed_refuses_example =
    validate_mixed_refuses half_native default_and_memory "intel.com/cpupool.default"
      (units (pos 500)) (millis (pos 500)) 499 refl default_and_memory-OnePool memory_and_cpu-Plain
      refl refl
