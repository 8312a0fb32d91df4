-- ===== src/Config/Coming.antt =====
-- cmd/cpu-pool-policy/pool/config.go: what the loop over the configuration file keeps.
use cpu_policy_plugins_for_k.Prelude.{
  ◌≡◌, refl, true, false, none, some, List, [], ◌∷◌, String, string_eq, ◌==◌, arith, elem, Distinct,
  elem-count, Bool-cases, Option-cases, inl, inr, sym, ap, ◌∙◌, ==-refl,
}
use cpu_policy_plugins_for_k.Prelude.GoMap.{get, put, get-put, get-put-cases}
use cpu_policy_plugins_for_k.Prelude.Int.{ℤ}
use cpu_policy_plugins_for_k.Prelude.Outcome.{Outcome, ok, after, after-ok, Outcome-cases}
use cpu_policy_plugins_for_k.Errors.{Error}
use cpu_policy_plugins_for_k.Cpuset.{Cpusets}
use cpu_policy_plugins_for_k.Config.Types.{
  ConfigFileEntry, ConfigFile, Config, NodeConfig, reserved_pool,
}
use cpu_policy_plugins_for_k.Config.Parsing.{
  empty_config, set_frequencies, set_cpus, apply_entry, old_config, configure, is_special,
  check_entry, check_explicit, configure_all, counted_entry,
}
use cpu_policy_plugins_for_k.Config.Frequency.{parse_cpu_freq}
use cpu_policy_plugins_for_k.Config.Required.{IsSound, apply_entry-FromEntry, configure_lem}

module _ ⦃c : Cpusets⦄ where
  open c use {CPUSet}

  -- The reserved pool is configured; the reserved and the default pool are neither isolated nor free
  -- of hyperthreads; the CPUs of every pool are isolated or not, as the pool is; and a pool that is
  -- still to come has no CPUs.
  pub record Coming (isolated_cpus : CPUSet) (waiting : List String) (cfg : NodeConfig)
      : Type 0 where
    pub has_reserved : (pc : Config) × (get reserved_pool cfg ≡ some pc)
    pub plain :
        (name : String) (pc : Config)
        → get name cfg ≡ some pc
        → is_special name ≡ true
        → (pc.isolated ≡ false) × (pc.disable_ht ≡ false)
    pub sound : (name : String) (pc : Config) → get name cfg ≡ some pc → IsSound isolated_cpus pc
    pub no_cpus :
        (name : String) (pc : Config)
        → get name cfg ≡ some pc
        → elem name waiting ≡ true
        → pc.cpus ≡ none

  check_explicit_plain :
      (pool : String) (entry : ConfigFileEntry)
      → check_explicit pool entry ≡ ok tt
      → is_special pool ≡ true
      → (entry.isolated ≡ false) × (entry.disable_ht ≡ false)
  unfolding check_explicit check_entry
  check_explicit_plain pool entry e special = ground arith

  old_config_empty :
      (isolated_cpus : CPUSet) (pool : String) (rest : List String) (cfg : NodeConfig)
      → Coming isolated_cpus (pool ∷ rest) cfg
      → (old_config pool cfg).cpus ≡ none
  old_config_empty isolated_cpus pool rest cfg h = elim (Option-cases (get pool cfg)) [
    | inl e ↦ rw (e, old_config) refl
    | inr (pc, e) ↦ rw (e, old_config) (h.no_cpus pool pc e (ground (arith, ==-refl pool)))
  ]

  pub Coming-later :
      (isolated_cpus : CPUSet) (pool : String) (rest : List String) (cfg : NodeConfig)
      → Coming isolated_cpus (pool ∷ rest) cfg
      → Coming isolated_cpus rest cfg
  Coming-later isolated_cpus pool rest cfg h = record {
    has_reserved = h.has_reserved;
    plain = h.plain;
    sound = h.sound;
    no_cpus = λ name pc at later. h.no_cpus name pc at (ground (arith, later));
  }

  -- A pool that passes the checks is configured.
  pub configure-Coming :
      (isolated_cpus : CPUSet) (pool : String) (entry : ConfigFileEntry) (rest : List String)
      (cfg : NodeConfig)
      → (is_special pool ≡ true → (entry.isolated ≡ false) × (entry.disable_ht ≡ false))
      → elem pool rest ≡ false
      → Coming isolated_cpus (pool ∷ rest) cfg
      → Coming isolated_cpus rest (configure isolated_cpus pool entry cfg).0
  configure-Coming isolated_cpus pool entry rest cfg plain once h =
      let old = old_config pool cfg in
      let new = (apply_entry isolated_cpus pool entry old).0 in
      let from = apply_entry-FromEntry isolated_cpus pool entry old in
      let sound = from.sound (old_config_empty isolated_cpus pool rest cfg h) in
      rw (configure_lem isolated_cpus pool entry cfg) (record {
        has_reserved = elim (Bool-cases (pool == reserved_pool)) [
          | inl same ↦ (new, get-put reserved_pool pool new cfg ∙ rw same refl)
          | inr other ↦
              let (pc, e) = h.has_reserved in (pc, get-put reserved_pool pool new cfg ∙ rw other e)
        ];
        plain = λ name pc at special. elim (get-put-cases name pool new pc cfg at) [
          | inl (same, is_new) ↦
              let (e, f) = plain (rw same special) in
              rw (sym is_new) (from.isolated_is ∙ e, from.disable_ht_is ∙ f)
          | inr (other, old_at) ↦ h.plain name pc old_at special
        ];
        sound = λ name pc at. elim (get-put-cases name pool new pc cfg at) [
          | inl (same, is_new) ↦ rw (sym is_new) sound
          | inr (other, old_at) ↦ h.sound name pc old_at
        ];
        no_cpus = λ name pc at later. elim (get-put-cases name pool new pc cfg at) [
          | inl (same, is_new) ↦ absurd (ground (arith, once, later, same))
          | inr (other, old_at) ↦ h.no_cpus name pc old_at (ground (arith, later))
        ];
      })

  module _ (isolated_cpus : CPUSet) (file : ConfigFile) where
    abbrev pub rest_of_file : List String → NodeConfig → NodeConfig × Outcome Error (Unit {0})
    rest_of_file = configure_all check_explicit isolated_cpus file

    skip_name :
        (pool : String) (rest : List String) (cfg : NodeConfig)
        → get pool file ≡ none
        → rest_of_file (pool ∷ rest) cfg ≡ rest_of_file rest cfg
    unfolding configure_all
    skip_name pool rest cfg e = rw (e, configure_all) refl

    -- A pool is checked and then configured, or the loop does not end well.
    take_name :
        (pool : String) (rest : List String) (cfg : NodeConfig) (entry : ConfigFileEntry)
        → get pool file ≡ some entry
        → (rest_of_file (pool ∷ rest) cfg).1 ≡ ok tt
        → (check_explicit pool entry ≡ ok tt)
          × (rest_of_file (pool ∷ rest) cfg
              ≡ after
                  (configure isolated_cpus pool entry cfg)
                  (λ next done. rest_of_file rest next))
    unfolding configure_all
    take_name pool rest cfg entry e good = elim (Outcome-cases (check_explicit pool entry)) [
      | inl (done, fine) ↦ (fine, rw (e, configure_all) (rw fine refl))
      | inr (inl (m, bad)) ↦ absurd (ground (arith, e, bad, good))
      | inr (inr bad) ↦ absurd (ground (arith, e, bad, good))
    ]

    -- The loop over the file.
    pub configure_all-Coming :
        (names : List String) (cfg : NodeConfig)
        → Distinct names
        → Coming isolated_cpus names cfg
        → (rest_of_file names cfg).1 ≡ ok tt
        → Coming isolated_cpus [] (rest_of_file names cfg).0
    unfolding configure_all
    configure_all-Coming [] cfg d h good = h
    configure_all-Coming (pool ∷ rest) cfg d h good =
        let d_rest : Distinct rest = λ a. ground (arith, d a) in
        let once : elem pool rest ≡ false =
          ground (arith, d pool, elem-count pool rest, ==-refl pool) in
        let of_outcome = λ (r : NodeConfig × Outcome Error (Unit {0})). r.1 in
        elim (Option-cases (get pool file)) [
          | inl e ↦
              let whole = skip_name pool rest cfg e in
              rw whole (
                configure_all-Coming rest cfg d_rest (Coming-later isolated_cpus pool rest cfg h)
                  (ap of_outcome (sym whole) ∙ good))
          | inr (entry, e) ↦
              let (fine, whole) = take_name pool rest cfg entry e good in
              let next = configure isolated_cpus pool entry cfg in
              let well = ap of_outcome (sym whole) ∙ good in
              let (done, first, later) = after-ok next (λ s done. rest_of_file rest s) tt well in
              rw (whole ∙ later) (
                configure_all-Coming rest next.0 d_rest
                  (configure-Coming isolated_cpus pool entry rest cfg
                    (check_explicit_plain pool entry fine) once h)
                  (ap of_outcome (sym later) ∙ well))
        ]

  -- The entry of the reserved pool before the file is read.
  counted-no_cpus :
      (isolated_cpus : CPUSet) (n : ℤ)
      → (apply_entry isolated_cpus reserved_pool (counted_entry n) empty_config).0.cpus ≡ none
  unfolding apply_entry set_frequencies set_cpus parse_cpu_freq
  counted-no_cpus isolated_cpus n = refl

  pub first-Coming :
      (isolated_cpus : CPUSet) (n : ℤ) (names : List String)
      → Coming isolated_cpus names (configure isolated_cpus reserved_pool (counted_entry n) []).0
  unfolding get put
  first-Coming isolated_cpus n names =
      let new = (apply_entry isolated_cpus reserved_pool (counted_entry n) empty_config).0 in
      let from = apply_entry-FromEntry isolated_cpus reserved_pool (counted_entry n) empty_config in
      rw (configure_lem isolated_cpus reserved_pool (counted_entry n) []) (record {
        has_reserved = (new, refl);
        plain = λ name pc at special. elim (get-put-cases name reserved_pool new pc [] at) [
          | inl (same, is_new) ↦ rw (sym is_new) (from.isolated_is, from.disable_ht_is)
          | inr (other, none_at) ↦ absurd (cc)
        ];
        sound = λ name pc at. elim (get-put-cases name reserved_pool new pc [] at) [
          | inl (same, is_new) ↦ rw (sym is_new) (from.sound refl)
          | inr (other, none_at) ↦ absurd (cc)
        ];
        no_cpus = λ name pc at later. elim (get-put-cases name reserved_pool new pc [] at) [
          | inl (same, is_new) ↦ rw (sym is_new) (counted-no_cpus isolated_cpus n)
          | inr (other, none_at) ↦ absurd (cc)
        ];
      })
