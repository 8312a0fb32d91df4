-- ===== src/Pool/Roundtrip.antt =====
-- cmd/cpu-pool-policy/pool/pool.go: `ReleaseCPU` undoes `AllocateCPU` and `AllocateCPUs`.
use cpu_policy_plugins_for_k.Prelude.{
  ℕ, ◌≤◌, ◌≡◌, refl, true, false, ◌&&◌, not, none, some, [], String, string_eq, ◌==◌, if◌then◌else◌,
  arith, Bool-cases, inl, inr, sym, ◌∙◌, ==-refl,
}
use cpu_policy_plugins_for_k.Prelude.GoMap.{GoMap, get, put, get-put, get-delete}
use cpu_policy_plugins_for_k.Prelude.Int.{
  ℤ, pos, wrap64, int64_of, bits64, bits64-lt, add64, bits64-add64, bits64-sub64,
}
use cpu_policy_plugins_for_k.Prelude.Outcome.{ok}
use cpu_policy_plugins_for_k.Cpuset.{Cpusets, Disjoint, SameMembers, size-empty, none_in_empty}
use cpu_policy_plugins_for_k.Runtime.{GoRuntime}
use cpu_policy_plugins_for_k.Config.{reserved_pool, default_pool}
use cpu_policy_plugins_for_k.Allocator.{allocate_cpus}
use cpu_policy_plugins_for_k.Pool.State.{
  Container, Pool, PoolSet, Host, is_allowed_pool, milli_cpus,
}
use cpu_policy_plugins_for_k.Pool.Allocation.{
  share_cpu, allocate_cpu, pin_container, grant_cpus, allocate_exclusive,
}
use cpu_policy_plugins_for_k.Pool.Release.{give_back, release_cpu}
use cpu_policy_plugins_for_k.Pool.Books.{SameBooks, answered-SameBooks}
use cpu_policy_plugins_for_k.Pool.Releases.{release_cpu_known}
use cpu_policy_plugins_for_k.Pool.Requests.{Serviceable, served, take_cpus_enough}

module _ ⦃c : Cpusets⦄ where
  open c use {
    CPUSet, contains, is_empty, new_cpuset, union, difference, contains-new, contains-union,
    contains-difference, is_empty_lem, size,
  }

  -- The same CPUs shared and given away, the same CPU used in 64 bits, the same configuration.
  abbrev pub SamePool : Pool → Pool → Type 0
  SamePool p q =
      SameMembers p.shared q.shared
      × SameMembers p.pinned q.pinned
      × (bits64 p.used ≡ bits64 q.used)
      × (p.cfg ≡ q.cfg)

  -- The same containers, and the same pools by name.
  abbrev pub SameState : PoolSet → PoolSet → Type 0
  SameState ps qs =
      ((id : String) → get id ps.containers ≡ get id qs.containers)
      × ((name : String) (q : Pool)
          → get name qs.pools ≡ some q
          → (p : Pool) × (get name ps.pools ≡ some p) × SamePool p q)

  module _ ⦃g : GoRuntime⦄ ⦃h : Host⦄ where
    get-put-twice :
        (name name' : String) (p p' : Pool) (m : GoMap String Pool)
        → name' ≡ name
        → (other : String)
        → get other (put name' p' (put name p m)) ≡ (if name == other then some p' else get other m)
    get-put-twice name name' p p' m e other =
        rw e (ground (arith, get-put other name p' (put name p m), get-put other name p m))

    undone :
        (id name : String) (box : Container) (p p' : Pool) (ps qs : PoolSet)
        → SameBooks qs
            (record ps { containers = put id box ps.containers; pools = put name p' ps.pools })
        → ps.pending_cfg ≡ none
        → get id ps.containers ≡ none
        → get name ps.pools ≡ some p
        → box.pool ≡ name
        → SamePool (give_back box p') p
        → SameState (release_cpu id qs).0 ps
    undone id name box p p' ps qs (pools, containers, pending) quiet fresh known mine back =
        let there : get id qs.containers ≡ some box =
          rw containers (get-put id id box ps.containers ∙ ground (arith, ==-refl id)) in
        let at : get box.pool qs.pools ≡ some p' =
          rw (pools, mine) (get-put name name p' ps.pools ∙ ground (arith, ==-refl name)) in
        let (released, left, _) = release_cpu_known id box p' qs (pending ∙ quiet) there at in
        let pools_now = get-put-twice name box.pool p' (give_back box p') ps.pools mine in
        (
          λ k.
              rw (left, containers)
                (ground (
                  arith,
                  get-delete k id (put id box ps.containers),
                  get-put k id box ps.containers,
                  fresh,
                  string_eq.equal_iff id k,
                )),
          λ other q old. elim (Bool-cases (name == other)) [
            | inl same ↦
                let other_is : name ≡ other = (string_eq.equal_iff name other).0 same in
                let q_is : p ≡ q = ground (arith, known, old, other_is) in
                (
                  give_back box p',
                  rw (released, pools) (pools_now other ∙ rw same refl),
                  rw (sym q_is) back,
                )
            | inr differ ↦ (
              q,
              rw (released, pools) (pools_now other ∙ rw differ old),
              (λ x. refl, λ x. refl, refl, refl),
            )
          ],
        )

    -- The release of a container right after its request for shared CPU brings back the containers
    -- and the pools as they were: the pool is one that serves requests, the container was new, and
    -- no configuration is pending. The CPU used comes back even where it ran over 64 bits.
    pub release_cpu-allocate_cpu :
        (id pool : String) (req : ℤ) (p : Pool) (ps : PoolSet)
        → is_allowed_pool pool ≡ ok tt
        → ps.pending_cfg ≡ none
        → get id ps.containers ≡ none
        → get pool ps.pools ≡ some p
        → SameState (release_cpu id (allocate_cpu id pool req ps).0).0 ps
    unfolding allocate_cpu share_cpu give_back
    release_cpu-allocate_cpu id pool req p ps fine quiet fresh known =
        let box : Container = record { id = id; pool = pool; cpus = new_cpuset []; req = req } in
        let p' : Pool = record p { used = add64 p.used req } in
        let e : is_empty (new_cpuset []) ≡ true =
          ground (arith, is_empty_lem (new_cpuset []), size-empty ⦃c = c⦄) in
        let back : SamePool (give_back box p') p =
          rw (e, give_back)
            (
              λ x. refl,
              λ x. refl,
              ground (
                arith,
                bits64-sub64 (add64 p.used req) req,
                bits64-add64 p.used req,
                bits64-lt p.used,
                bits64-lt req,
              ),
              refl,
            ) in
        let same : SameBooks (allocate_cpu id pool req ps).0 (share_cpu id pool req p ps) =
          rw (fine, known, allocate_cpu)
            (answered-SameBooks pool (share_cpu id pool req p ps) p.shared) in
        undone id pool box p p' ps (allocate_cpu id pool req ps).0 same quiet fresh known refl back

    none_asked : (n : ℕ) → n ≡ 0 → bits64 (milli_cpus (pos n)) ≡ 0
    unfolding milli_cpus wrap64 bits64 int64_of
    none_asked n e = rw e refl

    give_back_exclusive :
        (id name : String) (result rest : CPUSet) (p : Pool)
        → Disjoint p.shared p.pinned
        → ((x : ℤ) → contains result x ≡ true → contains p.shared x ≡ true)
        → ((x : ℤ) → contains rest x ≡ contains p.shared x && not (contains result x))
        → SamePool
            (give_back
              (record { id = id; pool = name; cpus = result; req = milli_cpus (pos (size result)) })
              (record p { shared = rest; pinned = union p.pinned result }))
            p
    unfolding give_back
    give_back_exclusive id name result rest p apart inside left =
        elim (Bool-cases (is_empty result)) [
          | inl e ↦
              rw (e, give_back)
                (
                  λ x. ground (arith, left x, none_in_empty result e x),
                  λ x. ground (arith, contains-union p.pinned result x, none_in_empty result e x),
                  ground (
                    arith,
                    bits64-sub64 p.used (milli_cpus (pos (size result))),
                    bits64-lt p.used,
                    none_asked (size result) (ground (arith, is_empty_lem result)),
                  ),
                  refl,
                )
          | inr e ↦
              rw (e, give_back)
                (
                  λ x. ground (arith, left x, inside x, contains-union rest result x),
                  λ x. ground (
                    arith,
                    contains-difference (union p.pinned result) result x,
                    contains-union p.pinned result x,
                    apart x,
                    inside x,
                  ),
                  refl,
                  refl,
                )
        ]

    -- The release of a container right after its request for exclusive CPUs brings back the
    -- containers and the pools as they were: the pool, the default one where none is named, serves
    -- requests, is not the reserved one and shares CPUs enough, none of which it has given away;
    -- the container was new, and no configuration is pending. The allocator knows a well-formed
    -- machine, and the pools share only CPUs that are online.
    pub release_cpu-allocate_exclusive :
        (id pool : String) (n : ℕ) (p : Pool) (ps : PoolSet)
        → Serviceable ps
        → (pool == reserved_pool) ≡ false
        → is_allowed_pool (if pool == "" then default_pool else pool) ≡ ok tt
        → get (if pool == "" then default_pool else pool) ps.pools ≡ some p
        → n ≤ size p.shared
        → Disjoint p.shared p.pinned
        → ps.pending_cfg ≡ none
        → get id ps.containers ≡ none
        → SameState (release_cpu id (allocate_exclusive id pool (pos n) ps).0).0 ps
    unfolding allocate_exclusive grant_cpus pin_container
    release_cpu-allocate_exclusive id pool n p ps v other fine known enough apart quiet fresh =
        let name = if pool == "" then default_pool else pool in
        let (result, out, sized, inside, left) = served n name p ps v known enough in
        let box : Container = record {
          id = id;
          pool = name;
          cpus = result;
          req = milli_cpus (pos (size result));
        } in
        let rest = (allocate_cpus h.allocator_system p.shared (pos n)).0 in
        let p' : Pool = record p { shared = rest; pinned = union p.pinned result } in
        let same : SameBooks (allocate_exclusive id pool (pos n) ps).0
            (pin_container id name result (record ps { pools = put name p' ps.pools })) =
          rw (other, fine, known, allocate_exclusive)
            (rw (take_cpus_enough n p result out) (
              answered-SameBooks name
                (pin_container id name result (record ps { pools = put name p' ps.pools }))
                result)) in
        undone id name box p p' ps (allocate_exclusive id pool (pos n) ps).0 same quiet fresh known
          refl (give_back_exclusive id name result rest p apart inside left)
