-- ===== src/Pool/Checkpoint.antt =====
-- cmd/cpu-pool-policy/pool/pool.go: the checkpoint of a pool set, written as JSON and read back.
use cpu_policy_plugins_for_k.Prelude.{◌≡◌, Option, [], ◌∷◌, String, if◌then◌else◌}
use cpu_policy_plugins_for_k.Prelude.GoMap.{GoMap}
use cpu_policy_plugins_for_k.Prelude.Int.{ℤ}
use cpu_policy_plugins_for_k.Prelude.Outcome.{Outcome, ok, err, panic}
use cpu_policy_plugins_for_k.Errors.{Error, isolated_changed}
use cpu_policy_plugins_for_k.Cpuset.{Cpusets}
use cpu_policy_plugins_for_k.Config.{Config, NodeConfig}
use cpu_policy_plugins_for_k.Pool.State.{Container, Pool, PoolSet, Host}

-- The values of a map, each changed.
unfoldable pub map_values : {A B : Type 0} → (A → B) → GoMap String A → GoMap String B
map_values f [] = []
map_values f ((k, v) ∷ m) = (k, f v) ∷ map_values f m

module _ ⦃c : Cpusets⦄ where
  open c use {CPUSet, equals}

  pub record MarshalContainer : Type 0 where
    pub id : String
    pub pool : String
    pub cpus : CPUSet
    pub req : ℤ

  pub record MarshalPool : Type 0 where
    pub shared : CPUSet
    pub pinned : CPUSet
    pub used : ℤ
    pub cfg : Option Config

  pub record MarshalPoolSet : Type 0 where
    pub pools : GoMap String MarshalPool
    pub containers : GoMap String MarshalContainer
    pub pending_cfg : Option NodeConfig
    pub current_cfg : Option NodeConfig
    pub isolated : CPUSet

  -- encoding/json on these records: a document that `json.Marshal` makes is read back by
  -- `json.Unmarshal` as the value that went in.
  pub record Json : Type 1 where
    pub Document : Type 0
    pub encode : MarshalPoolSet → Outcome Error Document
    pub decode : Document → Outcome Error MarshalPoolSet
    pub decode-encode :
        (m : MarshalPoolSet) (doc : Document) → encode m ≡ ok doc → decode doc ≡ ok m

  -- `MarshalJSON` and `UnmarshalJSON` of a container and of a pool
  unfoldable pub marshal_container : Container → MarshalContainer
  marshal_container box = record { id = box.id; pool = box.pool; cpus = box.cpus; req = box.req }

  unfoldable pub unmarshal_container : MarshalContainer → Container
  unmarshal_container m = record { id = m.id; pool = m.pool; cpus = m.cpus; req = m.req }

  unfoldable pub marshal_pool : Pool → MarshalPool
  marshal_pool p = record { shared = p.shared; pinned = p.pinned; used = p.used; cfg = p.cfg }

  unfoldable pub unmarshal_pool : MarshalPool → Pool
  unmarshal_pool m = record { shared = m.shared; pinned = m.pinned; used = m.used; cfg = m.cfg }

  -- What goes into the checkpoint; the kernel's isolated CPUs are added.
  unfoldable pub marshal_pool_set : CPUSet → PoolSet → MarshalPoolSet
  unfolding map_values
  marshal_pool_set isolated ps = record {
    pools = map_values marshal_pool ps.pools;
    containers = map_values marshal_container ps.containers;
    pending_cfg = ps.pending_cfg;
    current_cfg = ps.current_cfg;
    isolated = isolated;
  }

  -- What comes out of it, in the fields that a checkpoint has.
  unfoldable pub unmarshal_pool_set : MarshalPoolSet → PoolSet → PoolSet
  unfolding map_values
  unmarshal_pool_set m ps = record ps {
    pools = map_values unmarshal_pool m.pools;
    containers = map_values unmarshal_container m.containers;
    current_cfg = m.current_cfg;
    pending_cfg = m.pending_cfg;
  }

  module _ ⦃h : Host⦄ ⦃j : Json⦄ where
    open j use {Document, encode, decode}

    -- `PoolSet.MarshalJSON`
    unfoldable pub marshal_json : PoolSet → Outcome Error Document
    marshal_json ps = encode (marshal_pool_set h.isolated_cpus ps)

    -- `PoolSet.UnmarshalJSON`: the fields are set before the isolated CPUs are compared.
    unfoldable pub unmarshal_json : Document → PoolSet → PoolSet × Outcome Error (Unit {0})
    unmarshal_json doc ps = elim (decode doc) [
      | err e ↦ (ps, err e)
      | panic ↦ (ps, panic)
      | ok m ↦ (
        unmarshal_pool_set m ps,
        if equals m.isolated h.isolated_cpus then ok tt else err isolated_changed,
      )
    ]
