-- ===== src/Config/Tests.antt =====
-- cmd/cpu-pool-policy/pool/config.go: the theorems at a small file and at some frequencies.
use cpu_policy_plugins_for_k.Prelude.{
  ℕ, ◌≡◌, refl, true, false, List, [], ◌∷◌, ◌++◌, none, some, string_eq, arith,
}
use cpu_policy_plugins_for_k.Prelude.GoMap.{get, put}
use cpu_policy_plugins_for_k.Prelude.Int.{pos, negsuc}
use cpu_policy_plugins_for_k.Prelude.Outcome.{ok}
use cpu_policy_plugins_for_k.Cpuset.{Cpusets}
use cpu_policy_plugins_for_k.Cpuset.SortedList.{sorted_lists}
use cpu_policy_plugins_for_k.Runtime.{GoRuntime}
use cpu_policy_plugins_for_k.Runtime.Insertion.{insertion}
use cpu_policy_plugins_for_k.Config.Types.{ConfigFile, Config, NodeConfig}
use cpu_policy_plugins_for_k.Config.Frequency.{
  bytes, digit, uint_digits, parse_uint, split_at_unit, letter_base, unit_base, parse_freq,
  parse_cpu_freq,
}
use cpu_policy_plugins_for_k.Config.Parsing.{
  set_frequencies, set_explicit_cpus, set_cpus, apply_entry, configure, check_entry, check_explicit,
  configure_all, add_default, parse_requiring_explicit_cpus, parse_node_config,
}
use cpu_policy_plugins_for_k.Config.Decimal.{positional, if_it_fits, times64, parse_freq-decimal}
use cpu_policy_plugins_for_k.Config.Accepted.{IsAccepted, parse_node_config-IsAccepted}

instance abbrev sets : Cpusets
sets = sorted_lists (("2", pos 2 ∷ []) ∷ [])

instance abbrev runtime : GoRuntime
runtime = insertion

program : Unit {0}
unfolding digit uint_digits parse_uint split_at_unit letter_base unit_base parse_freq parse_cpu_freq
    set_frequencies set_explicit_cpus set_cpus apply_entry configure check_entry check_explicit
    configure_all add_default parse_requiring_explicit_cpus parse_node_config get put
program = tt

two_gigahertz : parse_cpu_freq "2GHz" ≡ some 2000000000
unfolding program
two_gigahertz = refl

hexadecimal : parse_cpu_freq "0x10k" ≡ some 16000
unfolding program
hexadecimal = refl

no_number : parse_cpu_freq "G" ≡ none
unfolding program
no_number = refl

abbrev twelve : List ℕ
twelve = bytes "12"

abbrev megahertz : List ℕ
megahertz = bytes "MHz"

parse_freq-decimal_example :
    (parse_freq twelve ≡ if_it_fits (positional twelve))
    × (parse_freq (twelve ++ megahertz) ≡ times64 1000000 (if_it_fits (positional twelve)))
unfolding program
parse_freq-decimal_example =
    parse_freq-decimal twelve megahertz 1000000
      (omega arith, omega arith, (omega arith, omega arith, tt)) refl refl

-- A pool of one CPU with a frequency limit, the default pool added.
abbrev file : ConfigFile
file =
    (
      "p",
      record {
        cpu_count = pos 0;
        cpus = "2";
        isolated = true;
        disable_ht = false;
        min_freq = "2GHz";
        max_freq = "";
      },
    )
    ∷ []

abbrev pool_p : Config
pool_p = record {
  cpu_count = pos 0;
  cpus = some (pos 2 ∷ []);
  isolated = true;
  disable_ht = false;
  min_freq = 2000000000;
  max_freq = 0;
}

abbrev counted : Config
counted = record {
  cpu_count = pos 1;
  cpus = none;
  isolated = false;
  disable_ht = false;
  min_freq = 0;
  max_freq = 0;
}

abbrev leftover : Config
leftover = record counted { cpu_count = negsuc 0 }

abbrev parsed : NodeConfig
parsed = ("reserved", counted) ∷ ("p", pool_p) ∷ ("default", leftover) ∷ []

file_read : parse_node_config (pos 2 ∷ []) (ok file) (pos 1) ≡ ok parsed
unfolding program
file_read = refl

parse_node_config-IsAccepted_example : IsAccepted (pos 2 ∷ []) parsed
parse_node_config-IsAccepted_example =
    parse_node_config-IsAccepted (pos 2 ∷ []) file (pos 1) parsed (λ a. ground arith) file_read
