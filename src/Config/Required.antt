-- ===== src/Config/Required.antt =====
-- cmd/cpu-pool-policy/pool/config.go: what a configuration satisfies that was read from a file.
use cpu_policy_plugins_for_k.Prelude.{
  ◌≡◌, refl, true, false, none, some, String, string_eq, ◌==◌, arith, Bool-cases, Option-cases, inl,
  inr, ◌⊎◌, sym, ◌∙◌,
}
use cpu_policy_plugins_for_k.Prelude.GoMap.{put}
use cpu_policy_plugins_for_k.Prelude.Int.{ℤ}
use cpu_policy_plugins_for_k.Prelude.Outcome.{after-either}
use cpu_policy_plugins_for_k.Cpuset.{Cpusets, Subset, Disjoint, none_in_empty}
use cpu_policy_plugins_for_k.Config.Types.{
  ConfigFileEntry, Config, NodeConfig, wildcard_cpu, claim_leftover,
}
use cpu_policy_plugins_for_k.Config.Frequency.{parse_cpu_freq}
use cpu_policy_plugins_for_k.Config.Parsing.{
  set_frequencies, set_explicit_cpus, set_cpus, apply_entry, old_config, configure,
}

module _ ⦃c : Cpusets⦄ where
  open c use {
    CPUSet, parse, contains, is_subset_of, is_empty, intersection, is_subset_of_iff,
    contains-intersection,
  }

  -- Explicit CPUs are isolated for an isolated pool, and none of them is for another.
  abbrev pub IsSound : CPUSet → Config → Type 0
  IsSound isolated_cpus pc =
      (s : CPUSet)
      → pc.cpus ≡ some s
      → (pc.isolated ≡ true → Subset s isolated_cpus)
        × (pc.isolated ≡ false → Disjoint s isolated_cpus)

  -- The flags stay, and CPUs that are given are sound.
  record Keeps (isolated_cpus : CPUSet) (pc pc' : Config) : Type 0 where
    pub same_isolated : pc'.isolated ≡ pc.isolated
    pub same_disable_ht : pc'.disable_ht ≡ pc.disable_ht
    pub sound : pc.cpus ≡ none → IsSound isolated_cpus pc'

  -- A configuration whose CPUs are not touched.
  Keeps-same :
      (isolated_cpus : CPUSet) (pc pc' : Config)
      → pc'.isolated ≡ pc.isolated
      → pc'.disable_ht ≡ pc.disable_ht
      → pc'.cpus ≡ pc.cpus
      → Keeps isolated_cpus pc pc'
  Keeps-same isolated_cpus pc pc' e f g = record {
    same_isolated = e;
    same_disable_ht = f;
    sound = λ empty s h. absurd (cc);
  }

  set_frequencies_keeps :
      (pool : String) (entry : ConfigFileEntry) (pc : Config)
      → ((set_frequencies pool entry pc).0.isolated ≡ pc.isolated)
        × ((set_frequencies pool entry pc).0.disable_ht ≡ pc.disable_ht)
        × ((set_frequencies pool entry pc).0.cpus ≡ pc.cpus)
  unfolding set_frequencies
  set_frequencies_keeps pool entry pc = elim (Option-cases (parse_cpu_freq entry.min_freq)) [
    | inl e ↦ rw (e, set_frequencies) (refl, refl, refl)
    | inr (low, e) ↦ elim (Option-cases (parse_cpu_freq entry.max_freq)) [
      | inl f ↦ rw (e, f, set_frequencies) (refl, refl, refl)
      | inr (high, f) ↦ rw (e, f, set_frequencies) (refl, refl, refl)
    ]
  ]

  -- An explicit set is taken only if it fits the flag of the pool.
  set_explicit_cpus-cases :
      (isolated_cpus : CPUSet) (pool : String) (cset : CPUSet) (pc : Config)
      → ((set_explicit_cpus isolated_cpus pool cset pc).0 ≡ pc)
        ⊎ (((set_explicit_cpus isolated_cpus pool cset pc).0 ≡ record pc { cpus = some cset })
            × ((pc.isolated ≡ true → is_subset_of cset isolated_cpus ≡ true)
                × (pc.isolated ≡ false → is_empty (intersection cset isolated_cpus) ≡ true)))
  unfolding set_explicit_cpus
  set_explicit_cpus-cases isolated_cpus pool cset pc = ground arith

  set_explicit_cpus-Keeps :
      (isolated_cpus : CPUSet) (pool : String) (cset : CPUSet) (pc : Config)
      → Keeps isolated_cpus pc (set_explicit_cpus isolated_cpus pool cset pc).0
  set_explicit_cpus-Keeps isolated_cpus pool cset pc =
      elim (set_explicit_cpus-cases isolated_cpus pool cset pc) [
        | inl e ↦ rw e (Keeps-same isolated_cpus pc pc refl refl refl)
        | inr (e, (inside, outside)) ↦ rw e (record {
          same_isolated = refl;
          same_disable_ht = refl;
          sound = λ empty s h.
              let s_is : cset ≡ s = ground (arith, h) in
              rw (sym s_is) (
                λ flag. (is_subset_of_iff cset isolated_cpus).0 (inside flag),
                λ flag x. ground (
                  arith,
                  contains-intersection cset isolated_cpus x,
                  none_in_empty (intersection cset isolated_cpus) (outside flag) x,
                ),
              );
        })
      ]

  set_cpus-cases :
      (isolated_cpus : CPUSet) (pool : String) (entry : ConfigFileEntry) (pc : Config)
      → ((set_cpus isolated_cpus pool entry pc).0 ≡ pc)
        ⊎ (((n : ℤ) × ((set_cpus isolated_cpus pool entry pc).0 ≡ record pc { cpu_count = n }))
            ⊎ ((cset : CPUSet) × (set_cpus isolated_cpus pool entry pc
                  ≡ set_explicit_cpus isolated_cpus pool cset pc)))
  unfolding set_cpus
  set_cpus-cases isolated_cpus pool entry pc = elim (Bool-cases (entry.cpus == "")) [
    | inl counted ↦ inr (inl (entry.cpu_count, ground (arith, counted)))
    | inr named ↦ elim (Bool-cases (entry.cpus == wildcard_cpu)) [
      | inl wild ↦ inr (inl (claim_leftover, ground (arith, named, wild)))
      | inr explicit ↦ elim (Option-cases (parse entry.cpus)) [
        | inl bad ↦ inl (ground (arith, named, explicit, bad))
        | inr (cset, good) ↦ inr (inr (cset, ground (arith, named, explicit, good)))
      ]
    ]
  ]

  set_cpus-Keeps :
      (isolated_cpus : CPUSet) (pool : String) (entry : ConfigFileEntry) (pc : Config)
      → Keeps isolated_cpus pc (set_cpus isolated_cpus pool entry pc).0
  set_cpus-Keeps isolated_cpus pool entry pc = elim (set_cpus-cases isolated_cpus pool entry pc) [
    | inl e ↦ rw e (Keeps-same isolated_cpus pc pc refl refl refl)
    | inr (inl (n, e)) ↦ rw e (Keeps-same isolated_cpus pc _ refl refl refl)
    | inr (inr (cset, e)) ↦ rw e (set_explicit_cpus-Keeps isolated_cpus pool cset pc)
  ]

  -- What an entry makes of the configuration of a pool, error or not: the flags are those of the
  -- entry, and CPUs that it gives are sound.
  pub record FromEntry (isolated_cpus : CPUSet) (entry : ConfigFileEntry) (old pc : Config)
      : Type 0 where
    pub isolated_is : pc.isolated ≡ entry.isolated
    pub disable_ht_is : pc.disable_ht ≡ entry.disable_ht
    pub sound : old.cpus ≡ none → IsSound isolated_cpus pc

  FromEntry-Keeps :
      (isolated_cpus : CPUSet) (pool : String) (entry : ConfigFileEntry) (old pc : Config)
      → Keeps isolated_cpus
          (set_frequencies pool entry
            (record old { isolated = entry.isolated; disable_ht = entry.disable_ht })).0
          pc
      → FromEntry isolated_cpus entry old pc
  FromEntry-Keeps isolated_cpus pool entry old pc k =
      let flagged = record old { isolated = entry.isolated; disable_ht = entry.disable_ht } in
      let (e, f, g) = set_frequencies_keeps pool entry flagged in
      record {
        isolated_is = k.same_isolated ∙ e;
        disable_ht_is = k.same_disable_ht ∙ f;
        sound = λ empty. k.sound (g ∙ empty);
      }

  pub apply_entry-FromEntry :
      (isolated_cpus : CPUSet) (pool : String) (entry : ConfigFileEntry) (old : Config)
      → FromEntry isolated_cpus entry old (apply_entry isolated_cpus pool entry old).0
  unfolding apply_entry
  apply_entry-FromEntry isolated_cpus pool entry old =
      let flagged = record old { isolated = entry.isolated; disable_ht = entry.disable_ht } in
      let timed = set_frequencies pool entry flagged in
      FromEntry-Keeps isolated_cpus pool entry old (apply_entry isolated_cpus pool entry old).0
        (elim (after-either timed (λ pc done. set_cpus isolated_cpus pool entry pc)) [
          | inl e ↦ rw e (Keeps-same isolated_cpus timed.0 timed.0 refl refl refl)
          | inr (done, e) ↦ rw e (set_cpus-Keeps isolated_cpus pool entry timed.0)
        ])

  pub configure_lem :
      (isolated_cpus : CPUSet) (pool : String) (entry : ConfigFileEntry) (cfg : NodeConfig)
      → (configure isolated_cpus pool entry cfg).0
        ≡ put pool (apply_entry isolated_cpus pool entry (old_config pool cfg)).0 cfg
  unfolding configure
  configure_lem isolated_cpus pool entry cfg = refl
