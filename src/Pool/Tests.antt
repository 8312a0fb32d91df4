-- ===== src/Pool/Tests.antt =====
-- cmd/cpu-pool-policy/pool: the theorems at a small pool set, on a machine of three CPUs. The
-- default pool shares them all, the pool "p" has given one away.
use cpu_policy_plugins_for_k.Prelude.{
  List, true, ◌≡◌, refl, [], ◌∷◌, none, some, String, string_eq, arith, Bool-cases, inl, inr, ◌⊎◌,
  ◌==◌, sym,
}
use cpu_policy_plugins_for_k.Prelude.GoMap.{get}
use cpu_policy_plugins_for_k.Prelude.Int.{ℤ, pos, int_eq, bits64}
use cpu_policy_plugins_for_k.Prelude.Outcome.{ok}
use cpu_policy_plugins_for_k.Allocator.Tests.{
  sets, runtime, machine, machine-IsWellFormed, all_three-Online,
}
use cpu_policy_plugins_for_k.Metrics.{ApiMetric, Clientset, Metrics}
use cpu_policy_plugins_for_k.Cpuset.{Subset}
use cpu_policy_plugins_for_k.Pool.Queries.{get_container_cpuset}
use cpu_policy_plugins_for_k.Pool.Granted.{allocate_exclusive_grants}
use cpu_policy_plugins_for_k.Pool.State.{Container, Pool, PoolSet, Host, is_allowed_pool}
use cpu_policy_plugins_for_k.Pool.Allocation.{allocate_cpu, allocate_exclusive}
use cpu_policy_plugins_for_k.Pool.Release.{release_cpu}
use cpu_policy_plugins_for_k.Pool.Balance.{InBalance}
use cpu_policy_plugins_for_k.Pool.Books.{IsBalanced}
use cpu_policy_plugins_for_k.Pool.Requests.{
  Serviceable, allocate_cpu-IsBalanced, allocate_exclusive-IsBalanced,
}
use cpu_policy_plugins_for_k.Pool.Releases.{release_cpu-IsBalanced}
use cpu_policy_plugins_for_k.Pool.Roundtrip.{
  SameState, release_cpu-allocate_cpu, release_cpu-allocate_exclusive,
}

instance abbrev pub host : Host
host = record {
  allocator_system = some machine;
  isolated_cpus = [];
  write_online = λ online id. ok (pos 1);
  online_entries = pos 1 ∷ pos 2 ∷ [];
  write_frequency = λ path id value. ok tt;
}

abbrev server : Clientset
server = record {
  create = λ namespace metric. some metric;
  fetch = λ namespace name. none;
  update = λ namespace metric. some metric;
}

-- The resource on the server, with no pools yet.
abbrev no_pools : ApiMetric
no_pools = record { name = "node"; pools = [] }

abbrev pub figures : Metrics
figures = record {
  clientset = server;
  nodename = "node";
  namespace = "kube-system";
  metric = some no_pools;
  pools = [];
}

abbrev pub box : Container
box = record { id = "a"; pool = "p"; cpus = pos 2 ∷ []; req = pos 1000 }

abbrev default_one : Pool
default_one = record { shared = pos 0 ∷ pos 1 ∷ []; pinned = []; used = pos 0; cfg = none }

abbrev other_one : Pool
other_one = record { shared = []; pinned = pos 2 ∷ []; used = pos 0; cfg = none }

abbrev state : PoolSet
state = record {
  pools = ("default", default_one) ∷ ("p", other_one) ∷ [];
  containers = ("a", box) ∷ [];
  sys = machine;
  offlined = [];
  metrics = figures;
  current_cfg = none;
  pending_cfg = none;
}

default-InBalance : InBalance "default" default_one state.containers
unfolding bits64
default-InBalance = record { apart = λ x. ground arith; held = λ x. refl; counted = refl }

other-InBalance : InBalance "p" other_one state.containers
unfolding bits64
other-InBalance = record { apart = λ x. refl; held = λ x. ground arith; counted = refl }

two_pools :
    (name : String) (p : Pool)
    → get name state.pools ≡ some p
    → (("default" ≡ name) × (default_one ≡ p)) ⊎ (("p" ≡ name) × (other_one ≡ p))
unfolding get
two_pools name p at = elim (Bool-cases ("default" == name)) [
  | inl e ↦ inl ((string_eq.equal_iff "default" name).0 e, ground (arith, e, at))
  | inr e ↦ elim (Bool-cases ("p" == name)) [
    | inl f ↦ inr ((string_eq.equal_iff "p" name).0 f, ground (arith, e, f, at))
    | inr f ↦ absurd (ground (arith, e, f, at))
  ]
]

state-IsBalanced : IsBalanced state
state-IsBalanced = record {
  distinct = λ k. ground arith;
  pool_balance = λ name p at. elim (two_pools name p at) [
    | inl (e, f) ↦ rw (sym e, sym f) default-InBalance
    | inr (e, f) ↦ rw (sym e, sym f) other-InBalance
  ];
}

state-Serviceable : Serviceable state
state-Serviceable = record {
  machine = machine;
  discovered = refl;
  well_formed = machine-IsWellFormed;
  online = λ name p at. elim (two_pools name p at) [
    | inl (e, f) ↦ rw (sym f) (λ x h. all_three-Online x (ground arith))
    | inr (e, f) ↦ rw (sym f) (λ x h. all_three-Online x (ground arith))
  ];
}

fresh_b : get "b" state.containers ≡ none
unfolding get
fresh_b = refl

default_known : get "default" state.pools ≡ some default_one
unfolding get
default_known = refl

default_allowed : is_allowed_pool "default" ≡ ok tt
unfolding is_allowed_pool
default_allowed = refl

allocate_cpu-IsBalanced_example : IsBalanced (allocate_cpu "b" "p" (pos 500) state).0
allocate_cpu-IsBalanced_example =
    allocate_cpu-IsBalanced "b" "p" (pos 500) state fresh_b state-IsBalanced

allocate_exclusive-IsBalanced_example : IsBalanced (allocate_exclusive "b" "" (pos 1) state).0
allocate_exclusive-IsBalanced_example =
    allocate_exclusive-IsBalanced "b" "" 1 state state-Serviceable fresh_b state-IsBalanced

release_cpu-IsBalanced_example : IsBalanced (release_cpu "a" state).0
release_cpu-IsBalanced_example = release_cpu-IsBalanced "a" state refl state-IsBalanced

release_cpu-allocate_cpu_example :
    SameState (release_cpu "b" (allocate_cpu "b" "default" (pos 500) state).0).0 state
release_cpu-allocate_cpu_example =
    release_cpu-allocate_cpu "b" "default" (pos 500) default_one state default_allowed refl fresh_b
      default_known

release_cpu-allocate_exclusive_example :
    SameState (release_cpu "b" (allocate_exclusive "b" "default" (pos 1) state).0).0 state
release_cpu-allocate_exclusive_example =
    release_cpu-allocate_exclusive "b" "default" 1 default_one state state-Serviceable refl
      default_allowed default_known (omega arith) default-InBalance.apart refl fresh_b

allocate_exclusive_grants_example :
    (cpus : List ℤ) × ((allocate_exclusive "b" "default" (pos 1) state).1 ≡ ok cpus)
    × (sets.size cpus ≡ 1)
    × Subset cpus default_one.shared
    × (get_container_cpuset "b" (allocate_exclusive "b" "default" (pos 1) state).0
        ≡ ok (cpus, true))
allocate_exclusive_grants_example =
    allocate_exclusive_grants "b" "default" 1 default_one state no_pools state-Serviceable refl
      default_allowed default_known (omega arith) (omega arith) refl
