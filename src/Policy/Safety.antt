-- ===== src/Policy/Safety.antt =====
-- cmd/cpu-pool-policy/pool-policy-plugin.go: what holds however containers come and go.
use cpu_policy_plugins_for_k.Prelude.{
  ℕ, ◌+◌, ◌≤◌, ◌≡◌, false, ◌&&◌, ◌||◌, some, [], ◌∷◌, String, string_eq, ◌==◌, arith, inl, inr,
  Bool-cases,
}
use cpu_policy_plugins_for_k.Prelude.GoMap.{GoMap, get}
use cpu_policy_plugins_for_k.Prelude.Int.{ℤ}
use cpu_policy_plugins_for_k.Cpuset.{Cpusets, Disjoint}
use cpu_policy_plugins_for_k.Runtime.{GoRuntime}
use cpu_policy_plugins_for_k.Kube.{Quantities}
use cpu_policy_plugins_for_k.Pool.State.{Container, Pool, PoolSet, Host}
use cpu_policy_plugins_for_k.Pool.Checkpoint.{Json}
use cpu_policy_plugins_for_k.Pool.Weights.{weigh}
use cpu_policy_plugins_for_k.Pool.Balance.{holds}
use cpu_policy_plugins_for_k.Pool.Books.{IsBalanced}
use cpu_policy_plugins_for_k.Pool.Conserved.{KeepsPools, size-SameCpus, box-pinned, weigh-get}
use cpu_policy_plugins_for_k.Policy.Store.{Stub}
use cpu_policy_plugins_for_k.Policy.Running.{Running}
use cpu_policy_plugins_for_k.Policy.Steps.{Reach, Reach-Keeps}

module _ ⦃c : Cpusets⦄ where
  open c use {CPUSet, contains, size}

  -- No CPU is of two pools.
  abbrev pub PoolsApart : GoMap String Pool → Type 0
  PoolsApart pools =
      (name other : String) (p o : Pool)
      → get name pools ≡ some p
      → get other pools ≡ some o
      → (name == other) ≡ false
      → (x : ℤ)
      → ((contains p.shared x || contains p.pinned x)
          && (contains o.shared x || contains o.pinned x))
        ≡ false

  KeepsPools-PoolsApart : (u v : GoMap String Pool) → KeepsPools u v → PoolsApart u → PoolsApart v
  KeepsPools-PoolsApart u v keeps apart name other p o at there differ x =
      let (p', at', same) = keeps.none_new name p at in
      let (o', there', equal) = keeps.none_new other o there in
      ground (arith, apart name other p' o' at' there' differ x, same x, equal x)

  -- Two containers weigh no more than all do.
  weigh-two :
      (w : Container → ℕ) (i k : String) (a b : Container) (boxes : GoMap String Container)
      → (i == k) ≡ false
      → get i boxes ≡ some a
      → get k boxes ≡ some b
      → w a + w b ≤ weigh w boxes
  unfolding get
  weigh-two w i k a b [] differ at there = absurd (ground arith)
  weigh-two w i k a b ((m, first) ∷ rest) differ at there = elim (Bool-cases (m == i)) [
    | inl is_i ↦ elim (Bool-cases (m == k)) [
      | inl is_k ↦ absurd (
          ground (arith, string_eq.equal_iff m i, string_eq.equal_iff m k, string_eq.equal_iff i k))
      | inr not_k ↦ ground (arith, at, is_i, weigh-get w k b rest (ground (arith, not_k, there)))
    ]
    | inr not_i ↦ elim (Bool-cases (m == k)) [
      | inl is_k ↦ ground (arith, there, is_k, weigh-get w i a rest (ground (arith, not_i, at)))
      | inr not_k ↦
          let ih =
            weigh-two w i k a b rest differ (ground (arith, not_i, at))
              (ground (arith, not_k, there)) in
          omega (arith, ih)
    ]
  ]

  -- Two containers of one pool have no CPU in common.
  one_holder :
      (i k : String) (a b : Container) (p : Pool) (ps : PoolSet)
      → IsBalanced ps
      → (i == k) ≡ false
      → get i ps.containers ≡ some a
      → get k ps.containers ≡ some b
      → a.pool ≡ b.pool
      → get a.pool ps.pools ≡ some p
      → Disjoint a.cpus b.cpus
  one_holder i k a b p ps books differ at there same known x =
      let balance = books.pool_balance a.pool p known in
      ground (
        arith,
        balance.held x,
        weigh-two (holds a.pool x) i k a b ps.containers differ at there,
        string_eq.equal_iff a.pool a.pool,
        string_eq.equal_iff b.pool a.pool,
        same,
      )

  exclusive_apart :
      (i k : String) (a b : Container) (p o : Pool) (ps : PoolSet)
      → IsBalanced ps
      → PoolsApart ps.pools
      → (i == k) ≡ false
      → get i ps.containers ≡ some a
      → get k ps.containers ≡ some b
      → get a.pool ps.pools ≡ some p
      → get b.pool ps.pools ≡ some o
      → Disjoint a.cpus b.cpus
  exclusive_apart i k a b p o ps books apart differ at there known other x =
      elim (Bool-cases (a.pool == b.pool)) [
        | inl same ↦
            one_holder i k a b p ps books differ at there
              ((string_eq.equal_iff a.pool b.pool).0 same) known x
        | inr foreign ↦ ground (
          arith,
          apart a.pool b.pool p o known other foreign x,
          box-pinned i a p ps at known books x,
          box-pinned k b o ps there other books x,
        )
      ]

  not_shared :
      (i name : String) (a : Container) (p o : Pool) (ps : PoolSet)
      → IsBalanced ps
      → PoolsApart ps.pools
      → get i ps.containers ≡ some a
      → get a.pool ps.pools ≡ some p
      → get name ps.pools ≡ some o
      → Disjoint a.cpus o.shared
  not_shared i name a p o ps books apart at known there x = elim (Bool-cases (a.pool == name)) [
    | inl same ↦
        let is_name = (string_eq.equal_iff a.pool name).0 same in
        let balance = books.pool_balance name o there in
        let mine : get a.pool ps.pools ≡ some o = rw is_name there in
        ground (arith, balance.apart x, box-pinned i a o ps at mine books x)
    | inr foreign ↦
        ground
          (arith, apart a.pool name p o known there foreign x, box-pinned i a p ps at known books x)
  ]

  module _ ⦃g : GoRuntime⦄ ⦃h : Host⦄ ⦃q : Quantities⦄ ⦃j : Json⦄ ⦃st : Stub⦄ where
    open st use {State}

    -- However containers are added and removed, in whatever order and with whatever success, a
    -- plugin that runs keeps running: the books stay right, and each pool is there and counts as
    -- many CPUs, shared and exclusive, as it did. The requests are natural numbers.
    pub Reach-Running :
        (s t : PoolSet × State)
        → Running s.0
        → Reach s t
        → Running t.0
          × ((name : String) (p : Pool)
              → get name s.0.pools ≡ some p
              → (o : Pool) × (get name t.0.pools ≡ some o)
                × (size o.shared + size o.pinned ≡ size p.shared + size p.pinned))
    Reach-Running s t v run =
        let (running, keeps) = Reach-Keeps s t v run in
        (
          running,
          λ name p at.
              let (o, there, same) = keeps.kept name p at in
              (
                o,
                there,
                size-SameCpus name p o s.0.containers t.0.containers
                    (v.books.pool_balance name p at) (running.books.pool_balance name o there) same,
              ),
        )

    -- If no CPU is of two pools to begin with, then at no time, however containers are added and
    -- removed, is a CPU that a container of a known pool has to itself also another such
    -- container's, or shared by any pool. The requests are natural numbers.
    pub Reach-exclusive_apart :
        (s t : PoolSet × State) (i k name : String) (a b : Container) (p o d : Pool)
        → Running s.0
        → PoolsApart s.0.pools
        → Reach s t
        → (i == k) ≡ false
        → get i t.0.containers ≡ some a
        → get k t.0.containers ≡ some b
        → get a.pool t.0.pools ≡ some p
        → get b.pool t.0.pools ≡ some o
        → get name t.0.pools ≡ some d
        → Disjoint a.cpus b.cpus × Disjoint a.cpus d.shared
    Reach-exclusive_apart s t i k name a b p o d v apart run differ at there known other third =
        let (running, keeps) = Reach-Keeps s t v run in
        let still = KeepsPools-PoolsApart s.0.pools t.0.pools keeps apart in
        (
          exclusive_apart i k a b p o t.0 running.books still differ at there known other,
          not_shared i name a p d t.0 running.books still at known third,
        )
