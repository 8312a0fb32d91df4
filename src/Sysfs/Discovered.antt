-- ===== src/Sysfs/Discovered.antt =====
-- pkg/sysfs/system.go: what `DiscoverSystem` makes of a machine, from the files to the records.
use mathlib.Core.Path.{subst}
use Prim.Native.Nat.{bit_and}
use cpu_policy_plugins_for_k.Prelude.{
  ℕ, ◌≡◌, ◌≢◌, refl, sym, true, false, Bool-cases, none, some, inl, inr, List, [], Distinct, String,
  nat_beq, arith,
}
use cpu_policy_plugins_for_k.Prelude.GoMap.{get, keys}
use cpu_policy_plugins_for_k.Prelude.Int.{ℤ, int_eq}
use cpu_policy_plugins_for_k.Prelude.Outcome.{Outcome, ok, err, panic}
use cpu_policy_plugins_for_k.Errors.{Error}
use cpu_policy_plugins_for_k.Runtime.{GoRuntime}
use cpu_policy_plugins_for_k.Sysfs.{IdSet, nil_set, id_set, members, System, Package, entries}
use cpu_policy_plugins_for_k.Sysfs.Control.{set_cpus_online}
use cpu_policy_plugins_for_k.Sysfs.ControlLaws.{OfflineMatches}
use cpu_policy_plugins_for_k.Sysfs.Filed.{IsFiled, listed, belongs, discover_packages_lem}
use cpu_policy_plugins_for_k.Sysfs.Discovery.{
  after_deferred, deferred_offline, discovered, flags_after, flags_asked, discover_cpus,
  packages_call, filed_call, discover_topology, discover_memory, discover, discover_system,
  unknown_system,
}
use cpu_policy_plugins_for_k.Sysfs.Stages.{
  Ends, after-Ends, Settles, has_value, has_error, Gives, Ends-Gives, after-Gives, IsReading,
  IsRead, IsReading-IsRead, set_online_loop-unread, set_online_loop-IsRead,
}
use cpu_policy_plugins_for_k.Sysfs.Readings.{
  NodesApart, discover_each_cpu-Ends, discover_nodes-Ends,
}

IsRead-NodesApart : NodesApart IsRead
IsRead-NodesApart sys nodes h = record {
  filed = h.filed;
  distinct = h.distinct;
  agree = record { made = h.agree.made; distinct = h.agree.distinct; matches = h.agree.matches };
  unknown = h.unknown;
}

-- What is known of a system after discovery: its CPUs stand under their own ids, each once; one is
-- in the set of offline CPUs exactly when it is not marked online; and each package stands
-- once, under its own id, and has exactly the CPUs whose records name it.
pub record IsDiscovered (sys : System) : Type 0 where
  pub filed : IsFiled (entries sys.cpus)
  pub distinct : Distinct (keys (entries sys.cpus))
  pub agree : OfflineMatches sys
  pub once : Distinct (keys (entries sys.packages))
  pub own : (p : ℤ) (pkg : Package) → get p (entries sys.packages) ≡ some pkg → pkg.id ≡ p
  pub parted : (p x : ℤ) → listed (entries sys.packages) p x ≡ belongs (entries sys.cpus) p x

IsDiscovered-NodesApart : NodesApart IsDiscovered
IsDiscovered-NodesApart sys nodes h = record {
  filed = h.filed;
  distinct = h.distinct;
  agree = record { made = h.agree.made; distinct = h.agree.distinct; matches = h.agree.matches };
  once = h.once;
  own = h.own;
  parted = h.parted;
}

discovered-Gives :
    (x : System × Outcome Error (Unit {0}))
    → Gives IsDiscovered x
    → Settles IsDiscovered (discovered x)
unfolding discovered
discovered-Gives (s, ok done) h = has_value s h
discovered-Gives (s, err m) h = has_error m
discovered-Gives (s, panic) h = absurd h

module _ (read_file : String → Outcome Error String) (glob : String → List String) where
  module _ (readable : (path : String) → read_file path ≢ panic) where
    module _ ⦃g : GoRuntime⦄ (put_online put_offline : ℤ → Outcome Error ℤ)
        (lit : (id : ℤ) → put_online id ≢ panic) (dark : (id : ℤ) → put_offline id ≢ panic) where
      set_cpus_offline-Ends :
          (found : List ℤ) (cpus : IdSet) (sys : System)
          → IsRead sys
          → Ends IsRead (set_cpus_online put_offline found false cpus sys)
      unfolding set_cpus_online
      set_cpus_offline-Ends found nil_set sys h =
          set_online_loop-IsRead put_offline false found [] sys dark h
      set_cpus_offline-Ends found (id_set xs) sys h =
          set_online_loop-IsRead put_offline false (members (id_set xs)) [] sys dark h

      after_deferred-Ends :
          (ended : Outcome Error (Unit {0})) (x : System × Outcome Error IdSet)
          → ended ≢ panic
          → Ends IsRead x
          → Ends IsRead (after_deferred ended x)
      unfolding after_deferred
      after_deferred-Ends ended (sys, ok changed) calm (h, c) = (h, calm)
      after_deferred-Ends ended (sys, err e) calm (h, c) = (h, calm)
      after_deferred-Ends ended (sys, panic) calm (h, c) = absurd (c refl)

      deferred_offline-Ends :
          (found : List ℤ) (offline : IdSet) (x : System × Outcome Error (Unit {0}))
          → Ends IsReading x
          → Ends IsRead (deferred_offline put_offline found offline x)
      unfolding deferred_offline
      deferred_offline-Ends found offline (sys, ok done) (h, c) =
          after_deferred-Ends _ _ c
            (set_cpus_offline-Ends found offline sys (IsReading-IsRead sys h))
      deferred_offline-Ends found offline (sys, err e) (h, c) =
          after_deferred-Ends _ _ c
            (set_cpus_offline-Ends found offline sys (IsReading-IsRead sys h))
      deferred_offline-Ends found offline (sys, panic) (h, c) = absurd (c refl)

      discover_cpus-Ends :
          (sys : System)
          → sys.cpus ≡ none
          → sys.offline ≡ id_set []
          → sys.packages ≡ none
          → Ends IsRead (discover_cpus read_file glob put_online put_offline sys)
      unfolding discover_cpus set_cpus_online get
      discover_cpus-Ends sys no_cpus online no_packages =
          rw (no_cpus, discover_cpus)
            (after-Ends {P = IsReading} {Q = IsRead} _ _
              (set_online_loop-unread put_online true _ [] (record sys { cpus = some [] }) lit
                (record {
                  filed = λ i cpu e. cc (e);
                  distinct = λ a. omega arith;
                  none_offline = online;
                  all_online = λ i cpu e. cc (e);
                  unknown = no_packages;
                })
                (λ i. refl))
              IsReading-IsRead
              λ s offline h.
                deferred_offline-Ends _ offline _
                  (discover_each_cpu-Ends read_file glob readable _ s h))

      packages_call-Gives : (sys : System) → IsRead sys → Gives IsDiscovered (packages_call sys)
      unfolding packages_call filed_call
      packages_call-Gives sys h =
          let (pkgs, e, once, own, parted) = discover_packages_lem sys h.unknown h.filed in
          subst (λ o. Gives IsDiscovered (filed_call sys o)) (sym e)
            (record {
              filed = h.filed;
              distinct = h.distinct;
              agree = record {
                made = h.agree.made;
                distinct = h.agree.distinct;
                matches = h.agree.matches;
              };
              once = once;
              own = own;
              parted = parted;
            })

      discover_topology-Gives :
          (sys : System)
          → sys.cpus ≡ none
          → sys.offline ≡ id_set []
          → sys.packages ≡ none
          → nat_beq (bit_and sys.flags 5) 0 ≡ false
          → Gives IsDiscovered (discover_topology read_file glob put_online put_offline sys)
      unfolding discover_topology
      discover_topology-Gives sys no_cpus online no_packages asked =
          rw (asked, discover_topology)
            (after-Gives IsRead IsDiscovered _ _
              (Ends-Gives IsRead _ (discover_cpus-Ends sys no_cpus online no_packages))
              λ s done h.
                after-Gives IsRead IsDiscovered _ _
                  (Ends-Gives IsRead _
                    (discover_nodes-Ends read_file glob readable IsRead-NodesApart s h))
                  λ t done k. packages_call-Gives t k)

      discover_memory-Gives :
          (sys : System)
          → IsDiscovered sys
          → Gives IsDiscovered (discover_memory read_file glob put_online put_offline sys)
      unfolding discover_memory
      discover_memory-Gives sys h = elim (Bool-cases (nat_beq (bit_and sys.flags 2) 0)) [
        | inl off ↦ rw (off, discover_memory) h
        | inr on ↦
            rw (on, discover_memory)
              (Ends-Gives IsDiscovered _
                (discover_nodes-Ends read_file glob readable IsDiscovered-NodesApart sys h))
      ]

      -- `Discover` on a system of which nothing is known.
      discover-Gives :
          (flags : ℕ)
          → nat_beq (bit_and (flags_after 0 flags) 5) 0 ≡ false
          → Gives IsDiscovered (discover read_file glob put_online put_offline flags unknown_system)
      unfolding discover
      discover-Gives flags asked =
          after-Gives IsDiscovered IsDiscovered _ _
            (discover_topology-Gives (record unknown_system { flags = flags_after 0 flags }) refl
              refl refl asked)
            λ s done h. discover_memory-Gives s h

      -- If reading and writing the files under /sys ends in a value or an error, and the flags ask
      -- for the CPUs, then DiscoverSystem ends in an error or in a system, and not in a panic. In
      -- the system, the CPUs stand under their own ids, each once, the set of offline CPUs has
      -- exactly those that are not marked online, and each package has exactly the CPUs whose
      -- records name it. A range of ids up to the largest `int`, at which the code does not end,
      -- counts as an error.
      pub discover_system-IsDiscovered :
          (args : List ℕ)
          → nat_beq (bit_and (flags_after 0 (flags_asked args)) 5) 0 ≡ false
          → Settles IsDiscovered (discover_system read_file glob put_online put_offline args)
      unfolding discover_system
      discover_system-IsDiscovered args asked =
          discovered-Gives _ (discover-Gives (flags_asked args) asked)
