-- ===== src/Policy/Startup.antt =====
-- cmd/cpu-pool-policy/pool-policy-plugin.go: `Start` and the calls it makes, and the configuration
-- that is watched.
use cpu_policy_plugins_for_k.Prelude.{
  true, false, none, some, [], String, string_eq, ◌==◌, if◌then◌else◌,
}
use cpu_policy_plugins_for_k.Prelude.Int.{pos}
use cpu_policy_plugins_for_k.Prelude.Outcome.{Outcome, ok, err, panic, ◌>>=◌}
use cpu_policy_plugins_for_k.Errors.{Error}
use cpu_policy_plugins_for_k.Cpuset.{Cpusets}
use cpu_policy_plugins_for_k.Runtime.{GoRuntime}
use cpu_policy_plugins_for_k.Kube.{Quantities}
use cpu_policy_plugins_for_k.Sysfs.{System}
use cpu_policy_plugins_for_k.Metrics.{Clientset, Metrics, new_metrics}
use cpu_policy_plugins_for_k.Config.{ConfigFile, NodeConfig}
use cpu_policy_plugins_for_k.Config.Parsing.{parse_node_config}
use cpu_policy_plugins_for_k.Pool.State.{PoolSet, Host}
use cpu_policy_plugins_for_k.Pool.Reconcile.{reconfigure}
use cpu_policy_plugins_for_k.Pool.Queries.{new_pool_set}
use cpu_policy_plugins_for_k.Pool.Checkpoint.{Json}
use cpu_policy_plugins_for_k.Policy.Store.{Stub}
use cpu_policy_plugins_for_k.Policy.Update.{update_state}
use cpu_policy_plugins_for_k.Policy.Restore.{restore_state}
use cpu_policy_plugins_for_k.Policy.Plugin.{Plugin}

-- The plugin's configuration and what it calls for it (packages under vendor/, the generated client
-- and the file system): the picker of configuration files, which comes back with a path in any
-- case; the contents of a file; and the ways to a client of the API server.
pub record Surroundings : Type 1 where
  pub node_name : String
  pub kube_config : String
  pub metric_space : String
  pub watch_files : Outcome Error (Unit {0})
  pub pick_config : String × Outcome Error (Unit {0})
  pub read_config : String → Outcome Error ConfigFile
  pub RestConfig : Type 0
  pub in_cluster_config : Outcome Error RestConfig
  pub build_config : String → Outcome Error RestConfig
  pub new_for_config : RestConfig → Outcome Error Clientset
  pub discover : Outcome Error System

-- The configuration of the client: that of the cluster, or that of the given file.
unfoldable pub client_config : (e : Surroundings) → Outcome Error e.RestConfig
client_config e = elim e.in_cluster_config [
  | ok config ↦ ok config
  | panic ↦ panic
  | err f ↦ if e.kube_config == "" then err f else e.build_config e.kube_config
]

module _ ⦃c : Cpusets⦄ (e : Surroundings) where
  open c use {CPUSet, new_cpuset}

  -- `watchConfig`
  unfoldable pub watch_config : Plugin → Plugin × Outcome Error (Unit {0})
  watch_config p = elim p.watching [
    | true ↦ (p, ok tt)
    | false ↦ elim e.watch_files [
      | ok done ↦ (record p { watching = true }, ok tt)
      | err f ↦ (p, err f)
      | panic ↦ (p, panic)
    ]
  ]

  -- `initPoolPolicy(cfg)`
  unfoldable pub init_pool_policy : Outcome Error Plugin
  unfolding watch_config
  init_pool_policy =
      let (p, out) =
        watch_config
          (record { num_reserved_cpus = pos 0; watching = false; pool_cfg = none; pools = none }) in
      elim out [ ok done ↦ ok p | err f ↦ err f | panic ↦ panic ]

  -- `createMetricsApi`
  unfoldable pub create_metrics_api : Outcome Error Metrics
  create_metrics_api = client_config e >>= λ config. e.new_for_config config >>= λ client.
      let (m, out) = new_metrics e.node_name e.metric_space client in
      elim out [ ok done ↦ ok m | err f ↦ err f | panic ↦ panic ]

  module _ ⦃g : GoRuntime⦄ ⦃h : Host⦄ where
    open g use {range_names}

    -- `createPools`
    unfoldable pub create_pools : Plugin → Plugin × Outcome Error (Unit {0})
    create_pools p = elim create_metrics_api [
      | err f ↦ (p, err f)
      | panic ↦ (p, panic)
      | ok metrics ↦ elim (new_pool_set e.discover (new_cpuset []) none metrics) [
        | ok ps ↦ (record p { pools = some ps }, ok tt)
        | err f ↦ (record p { pools = none }, err f)
        | panic ↦ (p, panic)
      ]
    ]

    -- `configure`, for a configuration that is read: the pools follow it at once.
    unfoldable pub follow_config : NodeConfig → Plugin → Plugin × Outcome Error (Unit {0})
    follow_config cfg p = elim p.pools [
      | none ↦ (record p { pool_cfg = some cfg }, panic)
      | some ps ↦
          let (ps', out) = reconfigure (some cfg) ps in
          (record p { pool_cfg = some cfg; pools = some ps' }, out)
    ]

    -- `configure`. The error of the picker is only logged. A picker that is nil is a nil
    -- dereference.
    unfoldable pub configure_pools : Plugin → Plugin × Outcome Error (Unit {0})
    configure_pools p =
        if p.watching
        then elim (parse_node_config h.isolated_cpus (e.read_config e.pick_config.0)
            p.num_reserved_cpus) [
              | err f ↦ (p, err f)
              | panic ↦ (p, panic)
              | ok cfg ↦ follow_config cfg p
            ]
        else (p, panic)

    module _ ⦃q : Quantities⦄ ⦃j : Json⦄ ⦃st : Stub⦄ where
      open st use {State}

      -- The last step of `Start`.
      unfoldable pub publish_start :
          State → Plugin × Outcome Error (Unit {0}) → (Plugin × State) × Outcome Error (Unit {0})
      publish_start s (p, ok done) = let (s', out) = update_state p.pools s in ((p, s'), out)
      publish_start s (p, err f) = ((p, s), err f)
      publish_start s (p, panic) = ((p, s), panic)

      -- `Start` once the pools are restored.
      unfoldable pub start_restored :
          Plugin
          → State
          → PoolSet × Outcome Error (Unit {0})
          → (Plugin × State) × Outcome Error (Unit {0})
      start_restored p s (ps, ok done) =
          publish_start s (configure_pools (record p { pools = some ps }))
      start_restored p s (ps, err f) = ((record p { pools = some ps }, s), err f)
      start_restored p s (ps, panic) = ((record p { pools = some ps }, s), panic)

      -- `Start` once the pools are created. To restore pools that are nil is a nil dereference.
      unfoldable pub start_created :
          State → Plugin × Outcome Error (Unit {0}) → (Plugin × State) × Outcome Error (Unit {0})
      start_created s (p, ok done) = elim p.pools [
        | none ↦ ((p, s), panic)
        | some ps ↦ start_restored p s (restore_state s ps)
      ]
      start_created s (p, err f) = ((p, s), err f)
      start_created s (p, panic) = ((p, s), panic)

      -- `Start(s)`. `validateState` accepts every state.
      unfoldable pub start : Plugin → State → (Plugin × State) × Outcome Error (Unit {0})
      start p s = start_created s (create_pools p)
