-- ===== src/Metrics/Unsynced.antt =====
-- cmd/cpu-pool-policy/metrics/metrics.go: what follows if the server could not be reached at first.
use cpu_policy_plugins_for_k.Prelude.{◌≡◌, none, String, [], arith}
use cpu_policy_plugins_for_k.Prelude.Outcome.{ok, panic}
use cpu_policy_plugins_for_k.Cpuset.{Cpusets}
use cpu_policy_plugins_for_k.Runtime.{GoRuntime}
use cpu_policy_plugins_for_k.Metrics.{
  Clientset, create, fetch, sync_or_create, new_metrics, publish,
}

module _ ⦃c : Cpusets⦄ ⦃g : GoRuntime⦄ where
  -- If the server neither has the resource nor lets it be created, then `NewMetrics` returns all the
  -- same, and the first `Publish` panics.
  pub publish-new_metrics_panics :
      (nodename namespace : String) (clientset : Clientset)
      → clientset.fetch namespace nodename ≡ none
      → clientset.create namespace (record { name = nodename; pools = [] }) ≡ none
      → ((new_metrics nodename namespace clientset).1 ≡ ok tt)
        × ((publish (new_metrics nodename namespace clientset).0).1 ≡ panic)
  unfolding new_metrics sync_or_create fetch create publish
  publish-new_metrics_panics nodename namespace clientset no_fetch no_create =
      (ground (arith, no_fetch, no_create), ground (arith, no_fetch, no_create))
