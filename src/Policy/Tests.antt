-- ===== src/Policy/Tests.antt =====
-- cmd/cpu-pool-policy/pool-policy-plugin.go: the theorems at a small node. The default pool shares
-- one CPU and has given another to a container, the reserved pool shares a third.
use cpu_policy_plugins_for_k.Prelude.{
  List, ◌≡◌, refl, [], ◌∷◌, none, some, ◌+◌, ◌⊎◌, String, string_eq, ◌==◌, arith, Bool-cases, inl,
  inr, sym,
}
use cpu_policy_plugins_for_k.Prelude.GoMap.{get, put}
use cpu_policy_plugins_for_k.Prelude.Int.{ℤ, pos, int_eq, bits64}
use cpu_policy_plugins_for_k.Prelude.Outcome.{ok}
use cpu_policy_plugins_for_k.Allocator.Tests.{
  sets, runtime, machine, machine-IsWellFormed, all_three-Online,
}
use cpu_policy_plugins_for_k.Cpuset.{Disjoint, Subset}
use cpu_policy_plugins_for_k.Kube.{KubeContainer, KubePod}
use cpu_policy_plugins_for_k.Kube.Milli.{units}
use cpu_policy_plugins_for_k.Pool.Tests.{host, figures}
use cpu_policy_plugins_for_k.Pool.State.{Container, Pool, PoolSet, is_allowed_pool}
use cpu_policy_plugins_for_k.Pool.Balance.{InBalance}
use cpu_policy_plugins_for_k.Pool.Books.{IsBalanced}
use cpu_policy_plugins_for_k.Pool.Release.{release_cpu}
use cpu_policy_plugins_for_k.Pool.Assignments.{get_pool_assignments, assign, assigned}
use cpu_policy_plugins_for_k.Pool.Queries.{verify, get_pool_cpuset, common_cpus}
use cpu_policy_plugins_for_k.Pool.Resources.{
  get_container_pool_resources, first_pool, trim_prefix, milli_cpu, pool_of_namespace,
}
use cpu_policy_plugins_for_k.Pool.Checkpoint.{marshal_json, marshal_pool_set, unmarshal_json}
use cpu_policy_plugins_for_k.Pool.Restored.{with_checkpoint, unmarshal_json-marshal_json}
use cpu_policy_plugins_for_k.Policy.Memory.{quantities, documents, stub, StubState}
use cpu_policy_plugins_for_k.Policy.Update.{update_state, update_pools_state}
use cpu_policy_plugins_for_k.Policy.Told.{KnownWith, Informed, update_pools_state-Informed}
use cpu_policy_plugins_for_k.Policy.Restore.{restore_state, drop_lingering}
use cpu_policy_plugins_for_k.Policy.Restart.{restore_state-update_state}
use cpu_policy_plugins_for_k.Policy.Lingering.{surviving, drop_lingering_lem}
use cpu_policy_plugins_for_k.Policy.Plugin.{
  add_container, remove_container, finish_release, update_ignored,
}
use cpu_policy_plugins_for_k.Policy.Running.{Running}
use cpu_policy_plugins_for_k.Policy.Steps.{added, removed, Reach, here, next}
use cpu_policy_plugins_for_k.Policy.Safety.{PoolsApart, Reach-Running, Reach-exclusive_apart}
use cpu_policy_plugins_for_k.Policy.Served.{add_container_serves, remove_container_forgets}

abbrev box : Container
box = record { id = "a"; pool = "default"; cpus = pos 1 ∷ []; req = pos 1000 }

abbrev sharing : Container
sharing = record { id = "c"; pool = "reserved"; cpus = []; req = pos 0 }

abbrev default_one : Pool
default_one = record { shared = pos 0 ∷ []; pinned = pos 1 ∷ []; used = pos 0; cfg = none }

abbrev reserved_one : Pool
reserved_one = record { shared = pos 2 ∷ []; pinned = []; used = pos 0; cfg = none }

abbrev state : PoolSet
state = record {
  pools = ("default", default_one) ∷ ("reserved", reserved_one) ∷ [];
  containers = ("a", box) ∷ ("c", sharing) ∷ [];
  sys = machine;
  offlined = [];
  metrics = figures;
  current_cfg = none;
  pending_cfg = none;
}

-- What the kubelet has: the container, and one that is not the plugin's.
abbrev kubelet : StubState
kubelet = record {
  assignments = ("a", pos 1 ∷ []) ∷ ("c", pos 2 ∷ []) ∷ ("z", pos 2 ∷ []) ∷ [];
  default_cpus = [];
  entries = [];
  resources = [];
}

two_pools :
    (name : String) (p : Pool)
    → get name state.pools ≡ some p
    → (("default" ≡ name) × (default_one ≡ p)) ⊎ (("reserved" ≡ name) × (reserved_one ≡ p))
unfolding get
two_pools name p at = elim (Bool-cases ("default" == name)) [
  | inl e ↦ inl ((string_eq.equal_iff "default" name).0 e, ground (arith, e, at))
  | inr e ↦ elim (Bool-cases ("reserved" == name)) [
    | inl f ↦ inr ((string_eq.equal_iff "reserved" name).0 f, ground (arith, e, f, at))
    | inr f ↦ absurd (ground (arith, e, f, at))
  ]
]

default-InBalance : InBalance "default" default_one state.containers
unfolding bits64
default-InBalance = record { apart = λ x. ground arith; held = λ x. ground arith; counted = refl }

reserved-InBalance : InBalance "reserved" reserved_one state.containers
unfolding bits64
reserved-InBalance = record { apart = λ x. ground arith; held = λ x. refl; counted = refl }

state-IsBalanced : IsBalanced state
state-IsBalanced = record {
  distinct = λ k.
      ground
        (arith, string_eq.equal_iff "a" k, string_eq.equal_iff "c" k, string_eq.equal_iff "a" "c");
  pool_balance = λ name p at. elim (two_pools name p at) [
    | inl (e, f) ↦ rw (sym e, sym f) default-InBalance
    | inr (e, f) ↦ rw (sym e, sym f) reserved-InBalance
  ];
}

state_sound : verify state ≡ ok tt
unfolding verify get
state_sound = refl

state-Running : Running state
state-Running = record {
  books = state-IsBalanced;
  quiet = refl;
  service = record {
    machine = machine;
    discovered = refl;
    well_formed = machine-IsWellFormed;
    online = λ name p at. elim (two_pools name p at) [
      | inl (e, f) ↦ rw (sym f) (λ x h. all_three-Online x (ground arith))
      | inr (e, f) ↦ rw (sym f) (λ x h. all_three-Online x (ground arith))
    ];
  };
  given = λ name p at. elim (two_pools name p at) [
    | inl (e, f) ↦ rw (sym f) (λ x h. all_three-Online x (ground arith))
    | inr (e, f) ↦ rw (sym f) (λ x h. all_three-Online x (ground arith))
  ];
  sound = state_sound;
}

state-PoolsApart : PoolsApart state.pools
state-PoolsApart name other p o at there differ x = elim (two_pools name p at) [
  | inl (e, f) ↦ elim (two_pools other o there) [
    | inl (k, m) ↦ absurd (ground (arith, e, k, differ, string_eq.equal_iff name other))
    | inr (k, m) ↦ rw (sym f, sym m) (ground arith)
  ]
  | inr (e, f) ↦ elim (two_pools other o there) [
    | inl (k, m) ↦ rw (sym f, sym m) (ground arith)
    | inr (k, m) ↦ absurd (ground (arith, e, k, differ, string_eq.equal_iff name other))
  ]
]

-- A pod that wants one CPU of the default pool.
abbrev one_cpu : KubeContainer
one_cpu = record {
  name = "main";
  requests = some (("cpu", units (pos 1)) ∷ ("intel.com/cpupool.default", units (pos 1000)) ∷ []);
  limits = some (("cpu", units (pos 1)) ∷ []);
}

abbrev pod : KubePod
pod = record { namespace = "apps"; labels = []; init_containers = []; containers = one_cpu ∷ [] }

asks_one : get_container_pool_resources pod one_cpu ≡ ("default", pos 1000, pos 1000)
unfolding get_container_pool_resources first_pool trim_prefix milli_cpu pool_of_namespace get
asks_one = refl

fresh_b : get "b" state.containers ≡ none
unfolding get
fresh_b = refl

known_a : get "a" state.containers ≡ some box
unfolding get
known_a = refl

known_c : get "c" state.containers ≡ some sharing
unfolding get
known_c = refl

default_known : get "default" state.pools ≡ some default_one
unfolding get
default_known = refl

reserved_known : get "reserved" state.pools ≡ some reserved_one
unfolding get
reserved_known = refl

default_allowed : is_allowed_pool "default" ≡ ok tt
unfolding is_allowed_pool
default_allowed = refl

written : (ps : PoolSet) → marshal_json ps ≡ ok (marshal_pool_set [] ps)
unfolding marshal_json
written ps = refl

unmarshal_json-marshal_json_example :
    unmarshal_json (marshal_pool_set [] state) state ≡ (with_checkpoint state state, ok tt)
unmarshal_json-marshal_json_example =
    unmarshal_json-marshal_json state state (marshal_pool_set [] state) (written state)

update_pools_state-Informed_example :
    ((update_pools_state state kubelet).1 ≡ ok tt)
    × Informed state (marshal_pool_set [] state) kubelet (update_pools_state state kubelet).0
update_pools_state-Informed_example =
    update_pools_state-Informed state kubelet (marshal_pool_set [] state) state_sound
      (written state)

restore_state-update_state_example :
    restore_state (update_pools_state state kubelet).0 state ≡ (with_checkpoint state state, ok tt)
restore_state-update_state_example =
    restore_state-update_state state state kubelet (marshal_pool_set [] state) state_sound
      (written state)

drop_lingering_lem_example :
    ((drop_lingering kubelet state).1 ≡ ok tt)
    × Running (drop_lingering kubelet state).0
    × ((id : String)
        → get id (drop_lingering kubelet state).0.containers
          ≡ surviving kubelet id (get id state.containers))
drop_lingering_lem_example =
    drop_lingering_lem kubelet state state-Running (record { name = "node"; pools = [] }, refl)

add_container_serves_example :
    (cpus : List ℤ) × ((add_container pod one_cpu "b" state kubelet).1 ≡ ok tt)
    × (sets.size cpus ≡ 1)
    × Subset cpus default_one.shared
    × KnownWith "b" cpus (add_container pod one_cpu "b" state kubelet).0.1
add_container_serves_example =
    add_container_serves pod one_cpu "b" "default" 1 default_one state kubelet
      (record { name = "node"; pools = [] }) state-Running asks_one fresh_b refl default_allowed
      default_known (omega arith) (omega arith) refl (λ ps. (marshal_pool_set [] ps, written ps))

remove_container_forgets_example :
    ((remove_container "a" state kubelet).1 ≡ ok tt)
    × (get "a" (remove_container "a" state kubelet).0.0.containers ≡ none)
    × (get "a" (remove_container "a" state kubelet).0.1.assignments ≡ none)
    × Running (remove_container "a" state kubelet).0.0
remove_container_forgets_example =
    remove_container_forgets "a" state kubelet (record { name = "node"; pools = [] }) state-Running
      refl (λ ps. (marshal_pool_set [] ps, written ps))

-- The container goes, and comes back by another name.
abbrev gone : PoolSet × StubState
gone = (remove_container "a" state kubelet).0

abbrev back : PoolSet × StubState
back = (add_container pod one_cpu "b" gone.0 gone.1).0

come_and_go : Reach (state, kubelet) back
come_and_go = next (next here (removed "a" refl)) (added pod one_cpu "b" 1000 (asks_natural) refl)
  where
    asks_natural : (get_container_pool_resources pod one_cpu).1 ≡ pos 1000
    asks_natural = rw asks_one refl

Reach-Running_example :
    Running back.0
    × ((name : String) (p : Pool)
        → get name state.pools ≡ some p
        → (o : Pool) × (get name back.0.pools ≡ some o)
          × (sets.size o.shared + sets.size o.pinned ≡ sets.size p.shared + sets.size p.pinned))
Reach-Running_example = Reach-Running (state, kubelet) back state-Running come_and_go

-- To remove a container that is not known takes none of the others away.
abbrev same : PoolSet × StubState
same = (remove_container "z" state kubelet).0

same_pools : same.0 ≡ state
unfolding remove_container finish_release release_cpu update_ignored update_state update_pools_state
    marshal_json get_pool_assignments assign assigned get_pool_cpuset common_cpus get put
same_pools = refl

Reach-exclusive_apart_example :
    Disjoint box.cpus sharing.cpus × Disjoint box.cpus reserved_one.shared
Reach-exclusive_apart_example =
    Reach-exclusive_apart (state, kubelet) same "a" "c" "reserved" box sharing default_one
      reserved_one reserved_one state-Running state-PoolsApart (next here (removed "z" refl)) refl
      there_a there_c there_default there_reserved there_reserved
  where
    there_a : get "a" same.0.containers ≡ some box
    there_a = rw same_pools known_a

    there_c : get "c" same.0.containers ≡ some sharing
    there_c = rw same_pools known_c

    there_default : get "default" same.0.pools ≡ some default_one
    there_default = rw same_pools default_known

    there_reserved : get "reserved" same.0.pools ≡ some reserved_one
    there_reserved = rw same_pools reserved_known
