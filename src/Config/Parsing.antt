-- ===== src/Config/Parsing.antt =====
-- cmd/cpu-pool-policy/pool/config.go: from the entries of the configuration file to the
-- configuration of the pools. The kernel's isolated CPUs are an argument.
use cpu_policy_plugins_for_k.Prelude.{
  Bool, false, not, ◌&&◌, ◌||◌, none, some, List, [], ◌∷◌, String, string_eq, ◌==◌, if◌then◌else◌,
}
use cpu_policy_plugins_for_k.Prelude.GoMap.{get, put, keys}
use cpu_policy_plugins_for_k.Prelude.Int.{ℤ, pos}
use cpu_policy_plugins_for_k.Prelude.Outcome.{Outcome, ok, err, panic, after}
use cpu_policy_plugins_for_k.Errors.{
  Error, needs_explicit_cpuset, cannot_use_isolated, cannot_disable_ht, leftover_cannot_be_ht_free,
  invalid_cpuset, configured_not_isolated, configured_isolated, invalid_frequency,
}
use cpu_policy_plugins_for_k.Cpuset.{Cpusets}
use cpu_policy_plugins_for_k.Runtime.{GoRuntime}
use cpu_policy_plugins_for_k.Config.Types.{
  ConfigFileEntry, ConfigFile, Config, NodeConfig, wildcard_cpu, claim_leftover, reserved_pool,
  default_pool,
}
use cpu_policy_plugins_for_k.Config.Frequency.{parse_cpu_freq}

module _ ⦃c : Cpusets⦄ where
  open c use {CPUSet, parse, is_subset_of, is_empty, intersection}

  abbrev pub empty_config : Config
  empty_config = record {
    cpu_count = pos 0;
    cpus = none;
    isolated = false;
    disable_ht = false;
    min_freq = 0;
    max_freq = 0;
  }

  -- The frequencies of an entry, the lower one first.
  unfoldable pub set_frequencies :
      String → ConfigFileEntry → Config → Config × Outcome Error (Unit {0})
  set_frequencies pool entry pc = elim (parse_cpu_freq entry.min_freq) [
    | none ↦ (pc, err (invalid_frequency pool))
    | some low ↦ elim (parse_cpu_freq entry.max_freq) [
      | none ↦ (record pc { min_freq = low }, err (invalid_frequency pool))
      | some high ↦ (record pc { min_freq = low; max_freq = high }, ok tt)
    ]
  ]

  -- An explicit CPU set, which is to be isolated or not, as the pool is.
  unfoldable pub set_explicit_cpus :
      CPUSet → String → CPUSet → Config → Config × Outcome Error (Unit {0})
  set_explicit_cpus isolated_cpus pool cset pc =
      let given : Config × Outcome Error (Unit {0}) = (record pc { cpus = some cset }, ok tt) in
      if pc.isolated
      then (if is_subset_of cset isolated_cpus
          then given
          else (pc, err (configured_not_isolated pool)))
      else (if is_empty (intersection cset isolated_cpus)
          then given
          else (pc, err (configured_isolated pool)))

  -- The switch of `configure`.
  unfoldable pub set_cpus :
      CPUSet → String → ConfigFileEntry → Config → Config × Outcome Error (Unit {0})
  set_cpus isolated_cpus pool entry pc =
      let leftover = record pc { cpu_count = claim_leftover } in
      if entry.cpus == ""
      then (record pc { cpu_count = entry.cpu_count }, ok tt)
      else if entry.cpus == wildcard_cpu
      then (leftover, if pc.disable_ht then err (leftover_cannot_be_ht_free pool) else ok tt)
      else elim (parse entry.cpus) [
        | none ↦ (pc, err (invalid_cpuset pool))
        | some cset ↦ set_explicit_cpus isolated_cpus pool cset pc
      ]

  -- What `configure` makes of the configuration that a pool has.
  unfoldable pub apply_entry :
      CPUSet → String → ConfigFileEntry → Config → Config × Outcome Error (Unit {0})
  apply_entry isolated_cpus pool entry old =
      after
        (set_frequencies pool entry
          (record old { isolated = entry.isolated; disable_ht = entry.disable_ht }))
        (λ pc done. set_cpus isolated_cpus pool entry pc)

  -- A pool that is not there gets an empty configuration first.
  abbrev pub old_config : String → NodeConfig → Config
  old_config pool cfg = elim (get pool cfg) [ none ↦ empty_config | some pc ↦ pc ]

  -- `configure(pool, entry)`. The entry of the pool changes even if there is an error.
  unfoldable pub configure :
      CPUSet → String → ConfigFileEntry → NodeConfig → NodeConfig × Outcome Error (Unit {0})
  configure isolated_cpus pool entry cfg =
      let (pc, out) = apply_entry isolated_cpus pool entry (old_config pool cfg) in
      (put pool pc cfg, out)

  abbrev pub is_special : String → Bool
  is_special pool = pool == reserved_pool || pool == default_pool

  -- The checks on an entry that both loops make.
  unfoldable pub check_entry : String → ConfigFileEntry → Outcome Error (Unit {0})
  check_entry pool entry =
      if entry.isolated && is_special pool
      then err (cannot_use_isolated pool)
      else if entry.disable_ht && is_special pool
      then err (cannot_disable_ht pool)
      else ok tt

  -- The body of the loop that requires explicit CPUs.
  unfoldable pub check_explicit : String → ConfigFileEntry → Outcome Error (Unit {0})
  check_explicit pool entry =
      if entry.cpus == "" && not (pool == reserved_pool)
      then err (needs_explicit_cpuset pool)
      else check_entry pool entry

  -- The loops over the file, with the checks that each makes.
  unfoldable pub configure_all :
      (String → ConfigFileEntry → Outcome Error (Unit {0}))
      → CPUSet
      → ConfigFile
      → List String
      → NodeConfig
      → NodeConfig × Outcome Error (Unit {0})
  configure_all check isolated_cpus file [] cfg = (cfg, ok tt)
  configure_all check isolated_cpus file (pool ∷ rest) cfg = elim (get pool file) [
    | none ↦ configure_all check isolated_cpus file rest cfg
    | some entry ↦ elim (check pool entry) [
      | err e ↦ (cfg, err e)
      | panic ↦ (cfg, panic)
      | ok done ↦
          after (configure isolated_cpus pool entry cfg)
            (λ next done. configure_all check isolated_cpus file rest next)
    ]
  ]

  -- `configFileEntry{CpuCount: n}` and `configFileEntry{Cpus: wildcardCpu}`
  abbrev pub counted_entry : ℤ → ConfigFileEntry
  counted_entry n = record {
    cpu_count = n;
    cpus = "";
    isolated = false;
    disable_ht = false;
    min_freq = "";
    max_freq = "";
  }

  abbrev pub wildcard_entry : ConfigFileEntry
  wildcard_entry = record {
    cpu_count = pos 0;
    cpus = wildcard_cpu;
    isolated = false;
    disable_ht = false;
    min_freq = "";
    max_freq = "";
  }

  -- `DefaultNodeConfig(numReservedCPUs)`; the errors of `configure` are dropped.
  unfoldable pub default_node_config : CPUSet → ℤ → NodeConfig
  default_node_config isolated_cpus n =
      (configure isolated_cpus default_pool wildcard_entry
        (configure isolated_cpus reserved_pool (counted_entry n) []).0).0

  -- The default pool claims what is left over, unless it is configured.
  unfoldable pub add_default : CPUSet → NodeConfig → NodeConfig
  add_default isolated_cpus cfg = elim (get default_pool cfg) [
    | some pc ↦ cfg
    | none ↦ (configure isolated_cpus default_pool wildcard_entry cfg).0
  ]

  module _ ⦃g : GoRuntime⦄ where
    open g use {range_names}

    -- `parseRequiringExplicitCpus(file, numReservedCPUs)`, from a configuration.
    unfoldable pub parse_requiring_explicit_cpus :
        CPUSet → ConfigFile → ℤ → NodeConfig → NodeConfig × Outcome Error (Unit {0})
    parse_requiring_explicit_cpus isolated_cpus file n cfg =
        let reserved = (configure isolated_cpus reserved_pool (counted_entry n) cfg).0 in
        after
          (configure_all check_explicit isolated_cpus file
            (range_names "parseRequiringExplicitCpus" (keys file)) reserved)
          (λ parsed done. (add_default isolated_cpus parsed, ok tt))

    -- `parseAllowingCpuCount(file, numReservedCPUs)`, from a configuration.
    unfoldable pub parse_allowing_cpu_count :
        CPUSet → ConfigFile → NodeConfig → NodeConfig × Outcome Error (Unit {0})
    parse_allowing_cpu_count isolated_cpus file =
        configure_all check_entry isolated_cpus file
          (range_names "parseAllowingCpuCount" (keys file))

    -- `ParseNodeConfig(path, numReservedCPUs)`, from what reading and decoding the file gives.
    unfoldable pub parse_node_config :
        CPUSet → Outcome Error ConfigFile → ℤ → Outcome Error NodeConfig
    parse_node_config isolated_cpus read n = elim read [
      | err e ↦ err e
      | panic ↦ panic
      | ok file ↦
          let (cfg, out) = parse_requiring_explicit_cpus isolated_cpus file n [] in
          elim out [ ok done ↦ ok cfg | err e ↦ err e | panic ↦ panic ]
    ]
