-- ===== src/Procfs/Tests.antt =====
-- pkg/procfs/cmdline.go: the theorems at a command line, and a run.
use Prim.Native.String.{String}
use cpu_policy_plugins_for_k.Prelude.{◌≡◌, refl, List, none, [], ◌∷◌, arith, string_eq}
use cpu_policy_plugins_for_k.Prelude.GoMap.{put}
use cpu_policy_plugins_for_k.Prelude.Outcome.{Outcome, ok}
use cpu_policy_plugins_for_k.Errors.{Error}
use cpu_policy_plugins_for_k.Allocator.Tests.{sets}
use cpu_policy_plugins_for_k.Procfs.Text.{
  split, split_first, trim, trim_left, trim_right, keep_char, cut,
}
use cpu_policy_plugins_for_k.Procfs.Cmdline.{
  KernelCmdline, isolated_cpus_option, note_word, parse_words, parse_kernel_cmdline,
  get_kernel_cmdline, option_value, flag, cached_isolated_cpuset,
}
use cpu_policy_plugins_for_k.Procfs.Items.{
  Item, setting, lone, AllItems, last_value, flagged, parse_kernel_cmdline-print_line,
}
use cpu_policy_plugins_for_k.Procfs.Isolated.{named_cpus, isolated_cpus_lem}

abbrev items : List Item
items = setting "root" "/dev/sda1" ∷ lone "quiet" ∷ setting "isolcpus" "" ∷ []

abbrev read_file : String → Outcome Error String
read_file path = ok "root=/dev/sda1 quiet isolcpus=\n"

items-AllItems : AllItems items
items-AllItems = ground arith

-- Blanks and tabs between words, and a value with a `=`.
messy :
    (parse_words
      (split 32 "  a=b=c \tquiet\t  a=d ")
      (record { path = ""; cmdline = ""; options = []; flags = [] }))
    ≡ record { path = ""; cmdline = ""; options = ("a", "d") ∷ []; flags = ("quiet", tt) ∷ [] }
unfolding split split_first trim trim_left trim_right keep_char cut note_word parse_words put
messy = refl

parse_kernel_cmdline-print_line_example :
    (kcl : KernelCmdline) × (parse_kernel_cmdline read_file "/proc/cmdline" ≡ ok kcl)
    × ((key : String) → option_value key kcl ≡ last_value key items none)
    × ((key : String) → flag key kcl ≡ flagged key items)
parse_kernel_cmdline-print_line_example =
    parse_kernel_cmdline-print_line read_file "/proc/cmdline" items items-AllItems refl

isolated_cpus_lem_example :
    ((cached_isolated_cpuset (get_kernel_cmdline read_file none).1 none).1
      ≡ named_cpus (last_value isolated_cpus_option items none))
    × ((cached_isolated_cpuset
          (get_kernel_cmdline (λ path. ok "") (get_kernel_cmdline read_file none).0).1
          none).1
        ≡ named_cpus (last_value isolated_cpus_option items none))
isolated_cpus_lem_example = isolated_cpus_lem read_file (λ path. ok "") items items-AllItems refl
