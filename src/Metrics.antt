-- ===== src/Metrics.antt =====
-- cmd/cpu-pool-policy/metrics: a cache of pool figures, published as the pools of a resource on the
-- API server.
pub mod Unsynced
pub mod Tests
use Prim.Native.Nat.{Ordering}
use Prim.Native.String.{compare}
use cpu_policy_plugins_for_k.Prelude.{
  Bool, true, false, List, [], ◌∷◌, Option, none, some, String, string_eq, if◌then◌else◌,
}
use cpu_policy_plugins_for_k.Prelude.GoMap.{GoMap, get, put, delete, keys}
use cpu_policy_plugins_for_k.Prelude.Int.{ℤ}
use cpu_policy_plugins_for_k.Prelude.Outcome.{Outcome, ok, err, panic}
use cpu_policy_plugins_for_k.Errors.{Error, update_failed}
use cpu_policy_plugins_for_k.Cpuset.{Cpusets}
use cpu_policy_plugins_for_k.Runtime.{GoRuntime}

-- pkg/apis/cpupools.intel.com/v1draft1/types.go: a pool as it is published.
pub record ApiPool : Type 0 where
  pub pool_name : String
  pub shared : String
  pub exclusive : String
  pub capacity : ℤ
  pub usage : ℤ

-- The resource: its name and the pools of its specification.
pub record ApiMetric : Type 0 where
  pub name : String
  pub pools : List ApiPool

-- The generated client, for one namespace: `none` where a call returns an error.
pub record Clientset : Type 0 where
  pub create : String → ApiMetric → Option ApiMetric
  pub fetch : String → String → Option ApiMetric
  pub update : String → ApiMetric → Option ApiMetric

-- `sort.Strings`, in the byte order of texts.
abbrev pub before : String → String → Bool
before a b = elim (compare a b) [ Ordering.lt ↦ true | _ ↦ false ]

abbrev pub insert_name : String → List String → List String
insert_name a [] = a ∷ []
insert_name a (b ∷ bs) = if before b a then b ∷ insert_name a bs else a ∷ b ∷ bs

abbrev pub sort_strings : List String → List String
sort_strings [] = []
sort_strings (a ∷ rest) = insert_name a (sort_strings rest)

module _ ⦃c : Cpusets⦄ where
  open c use {CPUSet, to_string, parse}

  -- The cached figures of a pool.
  pub record PoolMetrics : Type 0 where
    pub name : String
    pub shared : CPUSet
    pub exclusive : CPUSet
    pub capacity : ℤ
    pub usage : ℤ

  pub record Metrics : Type 0 where
    pub clientset : Clientset
    pub nodename : String
    pub namespace : String
    pub metric : Option ApiMetric
    pub pools : GoMap String PoolMetrics

  unfoldable pub update_pool : String → CPUSet → CPUSet → ℤ → ℤ → Metrics → Metrics
  update_pool name shared exclusive capacity usage m = record m {
    pools =
        put name
          (record {
            name = name;
            shared = shared;
            exclusive = exclusive;
            capacity = capacity;
            usage = usage;
          })
          m.pools;
  }

  unfoldable pub delete_pool : String → Metrics → Metrics × Bool
  delete_pool name m = elim (get name m.pools) [
    | none ↦ (m, false)
    | some p ↦ (record m { pools = delete name m.pools }, true)
  ]

  unfoldable pub delete_all_pools : Metrics → Metrics
  delete_all_pools m = record m { pools = [] }

  unfoldable pub create : Metrics → Metrics × Outcome Error (Unit {0})
  create m = elim (m.clientset.create m.namespace (record { name = m.nodename; pools = [] })) [
    | none ↦ (m, err update_failed)
    | some metric ↦ (record m { metric = some metric }, ok tt)
  ]

  -- The loop of `fetch`; `MustParse` ends the process on a text that is no CPU set.
  unfoldable pub load_pools :
      List ApiPool → GoMap String PoolMetrics → Option (GoMap String PoolMetrics)
  load_pools [] m = some m
  load_pools (p ∷ ps) m = elim (parse p.shared) [
    | none ↦ none
    | some shared ↦ elim (parse p.exclusive) [
      | none ↦ none
      | some exclusive ↦ load_pools ps (
          put p.pool_name
            (record {
              name = p.pool_name;
              shared = shared;
              exclusive = exclusive;
              capacity = p.capacity;
              usage = p.usage;
            })
            m)
    ]
  ]

  unfoldable pub fetch : Metrics → Metrics × Outcome Error (Unit {0})
  fetch m = elim (m.clientset.fetch m.namespace m.nodename) [
    | none ↦ (m, err update_failed)
    | some metric ↦ elim (load_pools metric.pools m.pools) [
      | none ↦ (m, panic)
      | some pools ↦ (record m { metric = some metric; pools = pools }, ok tt)
    ]
  ]

  unfoldable pub sync_or_create : Metrics → Metrics × Outcome Error (Unit {0})
  sync_or_create m =
      let (fetched, out) = fetch m in
      elim out [ ok done ↦ (fetched, ok tt) | err e ↦ create fetched | panic ↦ (fetched, panic) ]

  -- `NewMetrics` logs what goes wrong and returns all the same.
  unfoldable pub new_metrics : String → String → Clientset → Metrics × Outcome Error (Unit {0})
  new_metrics nodename namespace clientset =
      let (m, out) = sync_or_create (record {
        clientset = clientset;
        nodename = nodename;
        namespace = namespace;
        metric = none;
        pools = [];
      }) in
      elim out [ ok done ↦ (m, ok tt) | err e ↦ (m, ok tt) | panic ↦ (m, panic) ]

  unfoldable pub published : PoolMetrics → ApiPool
  published p = record {
    pool_name = p.name;
    shared = to_string p.shared;
    exclusive = to_string p.exclusive;
    capacity = p.capacity;
    usage = p.usage;
  }

  -- The figures of the named pools; the names come from the map itself.
  unfoldable pub updates : List String → GoMap String PoolMetrics → List ApiPool
  updates [] m = []
  updates (name ∷ names) m =
      let rest = updates names m in elim (get name m) [ none ↦ rest | some p ↦ published p ∷ rest ]

  module _ ⦃g : GoRuntime⦄ where
    open g use {range_names}

    -- `Publish`; without a resource on the server the write to `m.metric` panics.
    unfoldable pub publish : Metrics → Metrics × Outcome Error (Unit {0})
    publish m = elim m.metric [
      | none ↦ (m, panic)
      | some metric ↦
          let names = sort_strings (range_names "update" (keys m.pools)) in
          let changed = record metric { pools = updates names m.pools } in
          elim (m.clientset.update m.namespace changed) [
            | none ↦ (record m { metric = some changed }, err update_failed)
            | some stored ↦ (record m { metric = some stored }, ok tt)
          ]
    ]
