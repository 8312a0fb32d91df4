-- ===== src/Allocator/Cache.antt =====
-- pkg/cpuallocator/allocator.go: the singleton that discovers the machine once and caches the CPU
-- sets of its packages, nodes and cores; what the cache answers is what the machine answers.
use cpu_policy_plugins_for_k.Prelude.{
  ◌≡◌, refl, sym, ap, Bool, true, List, [], ◌∷◌, arith, elem, Option, none, some, Option-cases,
  Bool-cases, inl, inr, if◌then◌else◌,
}
use cpu_policy_plugins_for_k.Prelude.GoMap.{GoMap, get, put, get-put}
use cpu_policy_plugins_for_k.Prelude.Int.{ℤ, int_eq, int_beq_iff}
use cpu_policy_plugins_for_k.Prelude.Outcome.{Outcome, ok, err, panic}
use cpu_policy_plugins_for_k.Errors.{Error}
use cpu_policy_plugins_for_k.Cpuset.{Cpusets, SameMembers}
use cpu_policy_plugins_for_k.Sysfs.{
  System, Package, Cpu, package_at, node_at, cpu_at, package_cpus, node_cpus, thread_cpuset,
}
use cpu_policy_plugins_for_k.Allocator.{package_cpuset, core_cpuset}

module _ ⦃c : Cpusets⦄ where
  open c use {CPUSet, contains, to_slice, elem-to_slice}

  pub record SysfsSingleton : Type 0 where
    pub once : Bool
    pub sys : Option System
    pub fault : Option Error
    pub pkg : GoMap ℤ CPUSet
    pub node : GoMap ℤ CPUSet
    pub core : GoMap ℤ CPUSet

  -- `get`: discovery runs in the first call only. What it would find is an argument.
  unfoldable pub singleton_get :
      Outcome Error System → SysfsSingleton → SysfsSingleton × (Option System × Option Error)
  singleton_get found s =
      let first : SysfsSingleton = elim found [
        | ok sys ↦ record {
          once = true;
          sys = some sys;
          fault = none;
          pkg = [];
          node = [];
          core = [];
        }
        | err e ↦ record { once = true; sys = none; fault = some e; pkg = []; node = []; core = [] }
        | panic ↦ s
      ] in
      let after_call : SysfsSingleton = if s.once then s else first in
      (after_call, (after_call.sys, after_call.fault))

  -- `PackageCPUSet(id)`; a nil package panics.
  unfoldable pub cached_package_cpuset :
      ℤ → System → SysfsSingleton → SysfsSingleton × Outcome Error CPUSet
  cached_package_cpuset id sys s = elim (get id s.pkg) [
    | some cset ↦ (s, ok cset)
    | none ↦ elim (package_at sys id) [
      | none ↦ (s, panic)
      | some p ↦ (record s { pkg = put id (package_cpus p) s.pkg }, ok (package_cpus p))
    ]
  ]

  -- `NodeCPUSet(id)`
  unfoldable pub cached_node_cpuset :
      ℤ → System → SysfsSingleton → SysfsSingleton × Outcome Error CPUSet
  cached_node_cpuset id sys s = elim (get id s.node) [
    | some cset ↦ (s, ok cset)
    | none ↦ elim (node_at sys id) [
      | none ↦ (s, panic)
      | some n ↦ (record s { node = put id (node_cpus n) s.node }, ok (node_cpus n))
    ]
  ]

  -- The set of a core is stored for each of its threads.
  unfoldable pub store_core : List ℤ → CPUSet → GoMap ℤ CPUSet → GoMap ℤ CPUSet
  store_core [] cset m = m
  store_core (cid ∷ cids) cset m = store_core cids cset (put cid cset m)

  -- `CoreCPUSet(id)`
  unfoldable pub cached_core_cpuset :
      ℤ → System → SysfsSingleton → SysfsSingleton × Outcome Error CPUSet
  cached_core_cpuset id sys s = elim (get id s.core) [
    | some cset ↦ (s, ok cset)
    | none ↦ elim (cpu_at sys id) [
      | none ↦ (s, panic)
      | some cpu ↦
          let cset = thread_cpuset cpu in
          (record s { core = store_core (to_slice cset) cset s.core }, ok cset)
    ]
  ]

  -- What stands in the caches is what the machine says.
  pub record Agrees (sys : System) (s : SysfsSingleton) : Type 0 where
    pub packages : (i : ℤ) (cset : CPUSet) → get i s.pkg ≡ some cset → cset ≡ package_cpuset sys i
    pub cores :
        (i : ℤ) (cset : CPUSet) → get i s.core ≡ some cset → SameMembers cset (core_cpuset sys i)

  -- The machine's threads: each is among its own siblings, and siblings agree.
  pub record ThreadsAgree (sys : System) : Type 0 where
    pub same :
        (i j x : ℤ)
        → contains (core_cpuset sys i) j ≡ true
        → contains (core_cpuset sys i) x ≡ contains (core_cpuset sys j) x

  get-store_core :
      (i : ℤ) (cids : List ℤ) (cset : CPUSet) (m : GoMap ℤ CPUSet)
      → get i (store_core cids cset m) ≡ (if elem i cids then some cset else get i m)
  unfolding store_core
  get-store_core i [] cset m = refl
  get-store_core i (cid ∷ cids) cset m =
      ground (arith, get-store_core i cids cset (put cid cset m), get-put i cid cset m)

  of_package :
      (sys : System) (id : ℤ) (p : Package)
      → package_at sys id ≡ some p
      → package_cpuset sys id ≡ package_cpus p
  unfolding package_cpuset
  of_package sys id p e = rw (e, package_cpuset)

  of_core :
      (sys : System) (id : ℤ) (cpu : Cpu)
      → cpu_at sys id ≡ some cpu
      → SameMembers (thread_cpuset cpu) (core_cpuset sys id)
  unfolding core_cpuset
  of_core sys id cpu e x = rw (e, core_cpuset)

  -- While the caches are right, `PackageCPUSet` answers the CPUs of a package of the machine, cached
  -- or not, and keeps the caches right.
  pub cached_package_cpuset_lem :
      (id : ℤ) (sys : System) (p : Package) (s : SysfsSingleton)
      → package_at sys id ≡ some p
      → Agrees sys s
      → ((cached_package_cpuset id sys s).1 ≡ ok (package_cpuset sys id))
        × Agrees sys (cached_package_cpuset id sys s).0
  unfolding cached_package_cpuset
  cached_package_cpuset_lem id sys p s known h = elim (Option-cases (get id s.pkg)) [
    | inr (cset, e) ↦ rw (e, cached_package_cpuset) (ap ok (h.packages id cset e), h)
    | inl e ↦
        rw (e, cached_package_cpuset)
          (rw (known, cached_package_cpuset)
            (
              ap ok (sym (of_package sys id p known)),
              record {
                packages = λ i cset g. ground (
                  arith,
                  h.packages i cset,
                  get-put i id (package_cpus p) s.pkg,
                  int_beq_iff id i,
                  of_package sys id p known,
                );
                cores = h.cores;
              },
            ))
  ]

  stored_core :
      (id : ℤ) (sys : System) (cpu : Cpu) (s : SysfsSingleton) (i : ℤ) (cset : CPUSet)
      → cpu_at sys id ≡ some cpu
      → ThreadsAgree sys
      → Agrees sys s
      → get i (store_core (to_slice (thread_cpuset cpu)) (thread_cpuset cpu) s.core) ≡ some cset
      → SameMembers cset (core_cpuset sys i)
  stored_core id sys cpu s i cset known t h g x =
      let own = thread_cpuset cpu in
      elim (Bool-cases (elem i (to_slice own))) [
        | inl sibling ↦
            let e : own ≡ cset = ground (arith, get-store_core i (to_slice own) own s.core) in
            ground (
              arith,
              ap (λ (u : CPUSet). contains u x) e,
              of_core sys id cpu known x,
              of_core sys id cpu known i,
              t.same id i x,
              elem-to_slice own i,
            )
        | inr other ↦ h.cores i cset (ground (arith, get-store_core i (to_slice own) own s.core)) x
      ]

  -- While the caches are right, and on a machine whose hyperthreads agree on who their siblings are,
  -- `CoreCPUSet` answers the threads of a CPU's core, cached or not, and keeps the caches right,
  -- though it stores one CPU's siblings for all of them.
  pub cached_core_cpuset_lem :
      (id : ℤ) (sys : System) (cpu : Cpu) (s : SysfsSingleton)
      → cpu_at sys id ≡ some cpu
      → ThreadsAgree sys
      → Agrees sys s
      → ((cset : CPUSet) × ((cached_core_cpuset id sys s).1 ≡ ok cset)
          × SameMembers cset (core_cpuset sys id))
        × Agrees sys (cached_core_cpuset id sys s).0
  unfolding cached_core_cpuset
  cached_core_cpuset_lem id sys cpu s known t h = elim (Option-cases (get id s.core)) [
    | inr (cset, e) ↦ rw (e, cached_core_cpuset) ((cset, refl, h.cores id cset e), h)
    | inl e ↦
        rw (e, cached_core_cpuset)
          (rw (known, cached_core_cpuset)
            (
              (thread_cpuset cpu, refl, of_core sys id cpu known),
              record {
                packages = h.packages;
                cores = λ i cset g. stored_core id sys cpu s i cset known t h g;
              },
            ))
  ]
