-- ===== src/Procfs/Cmdline.antt =====
-- pkg/procfs/cmdline.go: `KernelCmdline`, and `isolatedCPUSet` of the pool configuration.
use cpu_policy_plugins_for_k.Prelude.{
  ℕ, Bool, true, false, ◌||◌, Option, none, some, List, [], ◌∷◌, String, string_eq, ◌==◌, nat_beq,
  if◌then◌else◌,
}
use cpu_policy_plugins_for_k.Prelude.GoMap.{GoMap, get, put}
use cpu_policy_plugins_for_k.Prelude.Int.{ℤ}
use cpu_policy_plugins_for_k.Prelude.Outcome.{Outcome, ok, err, panic}
use cpu_policy_plugins_for_k.Errors.{Error, invalid_cpuset}
use cpu_policy_plugins_for_k.Cpuset.{Cpusets}
use cpu_policy_plugins_for_k.Procfs.Text.{split, trim, cut}

-- `KernelCmdlinePath`, `IsolatedCpusOption`
abbrev pub kernel_cmdline_path : String
kernel_cmdline_path = "/proc/cmdline"

abbrev pub isolated_cpus_option : String
isolated_cpus_option = "isolcpus"

pub record KernelCmdline : Type 0 where
  pub path : String
  pub cmdline : String
  pub options : GoMap String String
  pub flags : GoMap String (Unit {0})

-- The characters that are trimmed from the file, and from a word.
abbrev pub at_ends : ℕ → Bool
at_ends c = nat_beq c 32 || nat_beq c 10

abbrev pub blank : ℕ → Bool
blank c = nat_beq c 32 || nat_beq c 9

-- `read`, with what reading a file gives as an argument
unfoldable pub read_line :
    (String → Outcome Error String) → KernelCmdline → Outcome Error KernelCmdline
read_line read_file kcl = elim (read_file kcl.path) [
  | err e ↦ err e
  | panic ↦ panic
  | ok buf ↦ ok (record kcl { cmdline = trim at_ends buf })
]

-- What the loop of `parse` does with a word.
unfoldable pub note_word : String → KernelCmdline → KernelCmdline
note_word word kcl = elim (cut 61 word) [
  | some (key, value) ↦ record kcl { options = put key value kcl.options }
  | none ↦ record kcl { flags = put word tt kcl.flags }
]

-- The loop of `parse` over the pieces of the line.
unfoldable pub parse_words : List String → KernelCmdline → KernelCmdline
parse_words [] kcl = kcl
parse_words (piece ∷ rest) kcl =
    let word = trim blank piece in parse_words rest (if word == "" then kcl else note_word word kcl)

-- `parse`: the file is read if there is no line yet.
unfoldable pub parse_line :
    (String → Outcome Error String) → KernelCmdline → Outcome Error KernelCmdline
parse_line read_file kcl =
    let had : Outcome Error KernelCmdline =
      if kcl.cmdline == "" then read_line read_file kcl else ok kcl in
    elim had [
      | err e ↦ err e
      | panic ↦ panic
      | ok line ↦ ok (parse_words (split 32 line.cmdline) line)
    ]

-- `ParseKernelCmdline(path)`
unfoldable pub parse_kernel_cmdline :
    (String → Outcome Error String) → String → Outcome Error KernelCmdline
unfolding parse_line
parse_kernel_cmdline read_file path =
    parse_line read_file (record { path = path; cmdline = ""; options = []; flags = [] })

-- `GetKernelCmdline`: the line is read once, and what came of it is kept.
unfoldable pub get_kernel_cmdline :
    (String → Outcome Error String)
    → Option (Outcome Error KernelCmdline)
    → Option (Outcome Error KernelCmdline) × Outcome Error KernelCmdline
get_kernel_cmdline read_file (some kept) = (some kept, kept)
get_kernel_cmdline read_file none =
    let result = parse_kernel_cmdline read_file kernel_cmdline_path in (some result, result)

-- `OptionValue(key)`
unfoldable pub option_value : String → KernelCmdline → Option String
option_value key kcl = get key kcl.options

-- `Flag(key)`
unfoldable pub flag : String → KernelCmdline → Bool
flag key kcl = elim (get key kcl.flags) [ none ↦ false | some there ↦ true ]

module _ ⦃c : Cpusets⦄ where
  open c use {CPUSet, new_cpuset, to_slice}

  -- `IsolatedCPUSet`
  unfoldable pub isolated_cpuset : KernelCmdline → Outcome Error CPUSet
  isolated_cpuset kcl = elim (option_value isolated_cpus_option kcl) [
    | none ↦ ok (new_cpuset [])
    | some cpus ↦ elim (c.parse cpus) [ none ↦ err (invalid_cpuset cpus) | some cset ↦ ok cset ]
  ]

  -- `IsolatedCpus`
  unfoldable pub isolated_cpus : KernelCmdline → Outcome Error (List ℤ)
  isolated_cpus kcl = elim (isolated_cpuset kcl) [
    | ok cset ↦ ok (to_slice cset)
    | err e ↦ err e
    | panic ↦ panic
  ]

  -- `isolatedCPUSet`: cached; an error is a panic.
  unfoldable pub cached_isolated_cpuset :
      Outcome Error KernelCmdline → Option CPUSet → Option CPUSet × Outcome Error CPUSet
  cached_isolated_cpuset line (some isolated) = (some isolated, ok isolated)
  cached_isolated_cpuset line none =
      let found : Outcome Error CPUSet = elim line [
        | err e ↦ panic
        | panic ↦ panic
        | ok kcl ↦ elim (isolated_cpuset kcl) [ ok cset ↦ ok cset | err e ↦ panic | panic ↦ panic ]
      ] in
      elim found [ ok cset ↦ (some cset, ok cset) | err e ↦ (none, err e) | panic ↦ (none, panic) ]
