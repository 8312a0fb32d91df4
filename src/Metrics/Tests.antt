-- ===== src/Metrics/Tests.antt =====
-- cmd/cpu-pool-policy/metrics/metrics.go: a server that cannot be reached.
use cpu_policy_plugins_for_k.Prelude.{◌≡◌, refl, none, []}
use cpu_policy_plugins_for_k.Prelude.Outcome.{ok, panic}
use cpu_policy_plugins_for_k.Cpuset.{Cpusets}
use cpu_policy_plugins_for_k.Cpuset.SortedList.{sorted_lists}
use cpu_policy_plugins_for_k.Runtime.{GoRuntime}
use cpu_policy_plugins_for_k.Runtime.Insertion.{insertion}
use cpu_policy_plugins_for_k.Metrics.{Clientset, new_metrics, publish}
use cpu_policy_plugins_for_k.Metrics.Unsynced.{publish-new_metrics_panics}

instance abbrev sets : Cpusets
sets = sorted_lists []

instance abbrev runtime : GoRuntime
runtime = insertion

abbrev unreachable : Clientset
unreachable = record {
  create = λ namespace metric. none;
  fetch = λ namespace name. none;
  update = λ namespace metric. none;
}

publish-new_metrics_panics_example :
    ((new_metrics "node" "kube-system" unreachable).1 ≡ ok tt)
    × ((publish (new_metrics "node" "kube-system" unreachable).0).1 ≡ panic)
publish-new_metrics_panics_example =
    publish-new_metrics_panics "node" "kube-system" unreachable refl refl
