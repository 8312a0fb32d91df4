-- ===== src/Config/Accepted.antt =====
-- cmd/cpu-pool-policy/pool/config.go: what holds of every configuration that `ParseNodeConfig`
-- returns.
use cpu_policy_plugins_for_k.Prelude.{
  ◌≡◌, refl, true, false, some, [], String, string_eq, arith, Distinct, Option-cases, inl, inr, sym,
  ◌∙◌,
}
use cpu_policy_plugins_for_k.Prelude.GoMap.{get, keys, get-put}
use cpu_policy_plugins_for_k.Prelude.Int.{ℤ}
use cpu_policy_plugins_for_k.Prelude.Outcome.{Outcome, ok, err, panic, after}
use cpu_policy_plugins_for_k.Errors.{Error}
use cpu_policy_plugins_for_k.Cpuset.{Cpusets}
use cpu_policy_plugins_for_k.Runtime.{GoRuntime}
use cpu_policy_plugins_for_k.Config.Types.{
  ConfigFile, Config, NodeConfig, reserved_pool, default_pool,
}
use cpu_policy_plugins_for_k.Config.Parsing.{
  apply_entry, old_config, configure, is_special, counted_entry, wildcard_entry, add_default,
  parse_requiring_explicit_cpus, parse_node_config,
}
use cpu_policy_plugins_for_k.Config.Required.{IsSound, configure_lem}
use cpu_policy_plugins_for_k.Config.Coming.{
  Coming, configure-Coming, rest_of_file, configure_all-Coming, first-Coming,
}

module _ ⦃c : Cpusets⦄ where
  open c use {CPUSet}

  -- The reserved and the default pool are configured, and are neither isolated nor free of
  -- hyperthreads; the explicit CPUs of an isolated pool are isolated, and those of another are not.
  pub record IsAccepted (isolated_cpus : CPUSet) (cfg : NodeConfig) : Type 0 where
    pub has_reserved : (pc : Config) × (get reserved_pool cfg ≡ some pc)
    pub has_default : (pc : Config) × (get default_pool cfg ≡ some pc)
    pub plain :
        (name : String) (pc : Config)
        → get name cfg ≡ some pc
        → is_special name ≡ true
        → (pc.isolated ≡ false) × (pc.disable_ht ≡ false)
    pub sound : (name : String) (pc : Config) → get name cfg ≡ some pc → IsSound isolated_cpus pc

  Coming-IsAccepted :
      (isolated_cpus : CPUSet) (cfg : NodeConfig) (pc : Config)
      → Coming isolated_cpus [] cfg
      → get default_pool cfg ≡ some pc
      → IsAccepted isolated_cpus cfg
  Coming-IsAccepted isolated_cpus cfg pc h e = record {
    has_reserved = h.has_reserved;
    has_default = (pc, e);
    plain = h.plain;
    sound = h.sound;
  }

  add_default-IsAccepted :
      (isolated_cpus : CPUSet) (cfg : NodeConfig)
      → Coming isolated_cpus [] cfg
      → IsAccepted isolated_cpus (add_default isolated_cpus cfg)
  unfolding add_default
  add_default-IsAccepted isolated_cpus cfg h = elim (Option-cases (get default_pool cfg)) [
    | inr (pc, e) ↦ rw (e, add_default) (Coming-IsAccepted isolated_cpus cfg pc h e)
    | inl e ↦
        let new =
          (apply_entry isolated_cpus default_pool wildcard_entry (old_config default_pool cfg)).0 in
        rw (e, add_default)
          (Coming-IsAccepted isolated_cpus
            (configure isolated_cpus default_pool wildcard_entry cfg).0 new
            (configure-Coming isolated_cpus default_pool wildcard_entry [] cfg (λ s. (refl, refl))
              refl
              (record {
                has_reserved = h.has_reserved;
                plain = h.plain;
                sound = h.sound;
                no_cpus = λ name pc at later.
                    absurd (ground (arith, e, at, later, string_eq.equal_iff default_pool name));
              }))
            (rw (configure_lem isolated_cpus default_pool wildcard_entry cfg)
              (get-put default_pool default_pool new cfg ∙ refl)))
  ]

  -- A call that ends with a configuration, from the end of the loop over the file.
  abbrev finish : CPUSet → NodeConfig × Outcome Error (Unit {0}) → Outcome Error NodeConfig
  finish isolated_cpus looped =
      let ended : NodeConfig × Outcome Error (Unit {0}) =
        after looped (λ parsed done. (add_default isolated_cpus parsed, ok tt)) in
      let (cfg, out) = ended in elim out [ ok done ↦ ok cfg | err e ↦ err e | panic ↦ panic ]

  finish-ok :
      (isolated_cpus : CPUSet) (looped : NodeConfig × Outcome Error (Unit {0})) (cfg : NodeConfig)
      → finish isolated_cpus looped ≡ ok cfg
      → (looped.1 ≡ ok tt) × (add_default isolated_cpus looped.0 ≡ cfg)
  finish-ok isolated_cpus (s, ok done) cfg e = (refl, ground (arith, e))
  finish-ok isolated_cpus (s, err m) cfg e = absurd (cc)
  finish-ok isolated_cpus (s, panic) cfg e = absurd (cc)

  module _ ⦃g : GoRuntime⦄ where
    open g use {range_names, range_names-SameItems}

    -- A configuration that `ParseNodeConfig` returns has the reserved and the default pool, neither
    -- of them isolated nor free of hyperthreads, and the explicit CPUs of every pool are isolated
    -- or not, as the pool is: whatever the file, in which a name stands once, and the order in
    -- which its entries are visited.
    pub parse_node_config-IsAccepted :
        (isolated_cpus : CPUSet) (file : ConfigFile) (n : ℤ) (cfg : NodeConfig)
        → Distinct (keys file)
        → parse_node_config isolated_cpus (ok file) n ≡ ok cfg
        → IsAccepted isolated_cpus cfg
    unfolding parse_node_config parse_requiring_explicit_cpus
    parse_node_config-IsAccepted isolated_cpus file n cfg d e =
        let names = range_names "parseRequiringExplicitCpus" (keys file) in
        let first = (configure isolated_cpus reserved_pool (counted_entry n) []).0 in
        let looped = rest_of_file isolated_cpus file names first in
        let d_names : Distinct names = λ a.
          omega (arith, range_names-SameItems "parseRequiringExplicitCpus" (keys file) a, d a) in
        let (fine, given) = finish-ok isolated_cpus looped cfg e in
        rw (sym given) (
          add_default-IsAccepted isolated_cpus looped.0 (
            configure_all-Coming isolated_cpus file names first d_names
              (first-Coming isolated_cpus n names) fine))
