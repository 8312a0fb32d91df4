-- ===== src/Procfs/Isolated.antt =====
-- pkg/procfs/cmdline.go and cmd/cpu-pool-policy/pool/config.go: the isolated CPUs of a command line.
use Prim.Native.String.{String}
use cpu_policy_plugins_for_k.Prelude.{
  ◌≡◌, refl, Option, none, some, List, [], arith, ap, ◌∙◌, inl, inr, Option-cases,
}
use cpu_policy_plugins_for_k.Prelude.Outcome.{Outcome, ok, panic}
use cpu_policy_plugins_for_k.Errors.{Error}
use cpu_policy_plugins_for_k.Cpuset.{Cpusets}
use cpu_policy_plugins_for_k.Procfs.Cmdline.{
  KernelCmdline, parse_kernel_cmdline, get_kernel_cmdline, kernel_cmdline_path, option_value,
  isolated_cpus_option, isolated_cpuset, cached_isolated_cpuset,
}
use cpu_policy_plugins_for_k.Procfs.Words.{glue}
use cpu_policy_plugins_for_k.Procfs.Items.{
  Item, print_line, AllItems, last_value, parse_kernel_cmdline-print_line,
}

module _ ⦃c : Cpusets⦄ where
  open c use {CPUSet, new_cpuset}

  -- The CPUs of the last `isolcpus` of a line: none without it, a panic if they cannot be read.
  abbrev pub named_cpus : Option String → Outcome Error CPUSet
  named_cpus none = ok (new_cpuset [])
  named_cpus (some cpus) = elim (c.parse cpus) [ none ↦ panic | some cset ↦ ok cset ]

  by_option :
      (kcl : KernelCmdline)
      → (cached_isolated_cpuset (ok kcl) none).1
        ≡ named_cpus (option_value isolated_cpus_option kcl)
  unfolding cached_isolated_cpuset isolated_cpuset
  by_option kcl = elim (Option-cases (option_value isolated_cpus_option kcl)) [
    | inl e ↦ ground (arith, e)
    | inr (cpus, e) ↦ elim (Option-cases (c.parse cpus)) [
      | inl f ↦ ground (arith, e, f)
      | inr (cset, f) ↦ ground (arith, e, f)
    ]
  ]

  first_reading :
      (read_file : String → Outcome Error String)
      → (get_kernel_cmdline read_file none).1 ≡ parse_kernel_cmdline read_file kernel_cmdline_path
  unfolding get_kernel_cmdline
  first_reading read_file = refl

  kept_reading :
      (read_file later : String → Outcome Error String)
      → (get_kernel_cmdline later (get_kernel_cmdline read_file none).0).1
        ≡ (get_kernel_cmdline read_file none).1
  unfolding get_kernel_cmdline
  kept_reading read_file later = refl

  -- On a machine whose command line is printed from options and flags, the pools take for isolated
  -- the CPUs of the last `isolcpus` of the line, no CPU if there is none, and panic if those CPUs
  -- cannot be read; and the command line stays as it was first read, whatever the file is later.
  pub isolated_cpus_lem :
      (read_file later : String → Outcome Error String) (items : List Item)
      → AllItems items
      → read_file kernel_cmdline_path ≡ ok (glue (print_line items) (String.◌∷◌ "\n" ""))
      → let kept = (get_kernel_cmdline read_file none).0 in
        ((cached_isolated_cpuset (get_kernel_cmdline read_file none).1 none).1
          ≡ named_cpus (last_value isolated_cpus_option items none))
        × ((cached_isolated_cpuset (get_kernel_cmdline later kept).1 none).1
            ≡ named_cpus (last_value isolated_cpus_option items none))
  isolated_cpus_lem read_file later items h e =
      let (kcl, parsed, options, flags) =
        parse_kernel_cmdline-print_line read_file kernel_cmdline_path items h e in
      let cached : Outcome Error KernelCmdline → Outcome Error CPUSet =
        λ line. (cached_isolated_cpuset line none).1 in
      let first =
        ap cached (first_reading read_file ∙ parsed)
        ∙ by_option kcl
        ∙ ap named_cpus (options isolated_cpus_option) in
      (first, ap cached (kept_reading read_file later) ∙ first)
