-- ===== src/Sysfs/DiscoveryTests.antt =====
-- pkg/sysfs: reading the files of a small machine, and the theorems about discovery at it. CPU 1
-- was offline, and is put back after it was read.
use Prim.Native.String.{◌++◌ as append}
use cpu_policy_plugins_for_k.Prelude.{
  ℕ, ◌≡◌, ◌≢◌, refl, List, [], ◌∷◌, Option, elem, none, some, Distinct, String, nat_beq, string_eq,
  ◌==◌, if◌then◌else◌, arith,
}
use cpu_policy_plugins_for_k.Prelude.GoMap.{GoMap, keys, get, put}
use cpu_policy_plugins_for_k.Prelude.Int.{ℤ, pos, negsuc, int_eq, ◌+ℤ◌, ◌-ℤ◌}
use cpu_policy_plugins_for_k.Prelude.Outcome.{Outcome, ok, err, panic}
use cpu_policy_plugins_for_k.Errors.{Error, sysfs_error}
use cpu_policy_plugins_for_k.Procfs.Text.{
  split, split_first, trim, trim_left, trim_right, keep_char,
}
use cpu_policy_plugins_for_k.Sysfs.Control.{set_cpus_online, set_online_loop, note_state}
use cpu_policy_plugins_for_k.Sysfs.Packages.{add_to_package, discover_packages, file_cpu, file_cpus}
use cpu_policy_plugins_for_k.Runtime.{GoRuntime}
use cpu_policy_plugins_for_k.Runtime.Insertion.{insertion}
use cpu_policy_plugins_for_k.Config.Frequency.{digit, uint_digits, parse_uint}
use cpu_policy_plugins_for_k.Sysfs.{
  id_set, nil_set, Package, System, store_all, Cpu, add, del, members,
}
use cpu_policy_plugins_for_k.Sysfs.Entries.{
  parsed, endless, get_enumerated_id, parse_int, atoi, parse_value, parse_id_set, parse_slice,
  int8_kind, int64_kind, enumerated_loop, read_sysfs_entry, parse_id, parse_ids, id_range, range_of,
  count_up, decimal_digits, with_sign, parse_number, stored_value, convert, parse_numbers,
}
use cpu_policy_plugins_for_k.Sysfs.Discovery.{
  discover_system, flags_after, flags_asked, after_deferred, all_flags, deferred_offline, discover,
  discover_cpu, discover_cpus, discover_each_cpu, discover_each_node, discover_memory,
  discover_node, discover_nodes, discover_topology, discovered, filed_call, linked_node,
  packages_call, read_cpu, read_node,
}
use cpu_policy_plugins_for_k.Sysfs.Filed.{IsFiled, listed, belongs, discover_packages_lem}
use cpu_policy_plugins_for_k.Sysfs.Lists.{
  Piece, single, range, print_list, any_names, parse_id_set-print_list,
}
use cpu_policy_plugins_for_k.Sysfs.Stages.{Settles}
use cpu_policy_plugins_for_k.Sysfs.Discovered.{IsDiscovered, discover_system-IsDiscovered}

instance abbrev runtime : GoRuntime
runtime = insertion

abbrev pub files : GoMap String String
files =
    ("/sys/devices/system/cpu/cpu0/topology/physical_package_id", "0\n")
    ∷ ("/sys/devices/system/cpu/cpu0/topology/thread_siblings_list", "0-1\n")
    ∷ ("/sys/devices/system/cpu/cpu0/cpufreq/cpuinfo_min_freq", "800000\n")
    ∷ ("/sys/devices/system/cpu/cpu0/cpufreq/cpuinfo_max_freq", "3000000\n")
    ∷ ("/sys/devices/system/cpu/cpu1/topology/physical_package_id", "0\n")
    ∷ ("/sys/devices/system/cpu/cpu1/topology/thread_siblings_list", "0-1\n")
    ∷ ("/sys/devices/system/node/node0/cpulist", "0-1\n")
    ∷ ("/sys/devices/system/node/node0/distance", "10 20\n")
    ∷ []

abbrev pub contents : Option String → Outcome Error String
contents none = err (sysfs_error "no such file")
contents (some text) = ok text

abbrev pub read_file : String → Outcome Error String
read_file path = contents (get path files)

pub contents_calm : (o : Option String) → contents o ≢ panic
contents_calm none = λ q. cc
contents_calm (some text) = λ q. cc

abbrev pub glob : String → List String
glob pattern =
    if pattern == "/sys/devices/system/cpu/cpu[0-9]*"
    then "/sys/devices/system/cpu/cpu0" ∷ "/sys/devices/system/cpu/cpu1" ∷ []
    else if pattern == "/sys/devices/system/node/node[0-9]*"
    then "/sys/devices/system/node/node0" ∷ []
    else []

abbrev put_online : ℤ → Outcome Error ℤ
put_online id = ok (pos 0)

abbrev put_offline : ℤ → Outcome Error ℤ
put_offline id = ok (pos 1)

name_of_a_cpu : get_enumerated_id "/sys/devices/system/cpu/cpu12" ≡ pos 12
unfolding get_enumerated_id
name_of_a_cpu = refl

-- The first byte of a name is not looked at.
name_of_digits : get_enumerated_id "12" ≡ negsuc 0
unfolding get_enumerated_id
name_of_digits = refl

ranges :
    parse_id_set 44 "0-2,8,4-5-9" (id_set [])
    ≡ parsed (id_set (pos 5 ∷ pos 4 ∷ pos 8 ∷ pos 2 ∷ pos 1 ∷ pos 0 ∷ []))
unfolding parse_id_set ◌+ℤ◌ ◌-ℤ◌ atoi digit store_all
ranges = refl

to_the_largest : parse_id_set 44 "8-9223372036854775807" (id_set []) ≡ endless
unfolding parse_id_set ◌-ℤ◌ atoi uint_digits digit
to_the_largest = refl

small_numbers :
    parse_slice int8_kind 32 "0x7f 128 -1" [] ≡ parsed (pos 127 ∷ negsuc 127 ∷ negsuc 0 ∷ [])
unfolding parse_slice ◌-ℤ◌ uint_digits digit
small_numbers = refl

-- A pointer to an int64 is left alone.
kept_int64 : parse_value int64_kind "7" (pos 3) ≡ parsed (pos 3)
unfolding parse_value uint_digits digit
kept_int64 = refl

abbrev thread : ℕ → Cpu
thread id = record {
  path = append "/sys/devices/system/cpu/cpu" (if nat_beq id 0 then "0" else "1");
  id = pos id;
  pkg = pos 0;
  node = pos 0;
  threads = id_set (pos 1 ∷ pos 0 ∷ []);
  freq =
      if nat_beq id 0 then record { min = 800000; max = 3000000 } else record { min = 0; max = 0 };
  online = nat_beq id 0;
}

unfoldable pub program : Unit {0}
unfolding get put ◌+ℤ◌ ◌-ℤ◌ digit uint_digits parse_uint split split_first trim trim_left trim_right
    keep_char add del store_all members set_cpus_online set_online_loop note_state get_enumerated_id
    enumerated_loop read_sysfs_entry parse_id parse_id_set parse_ids id_range range_of count_up atoi
    decimal_digits with_sign parse_value parse_number stored_value convert parse_slice parse_numbers
    parse_int after_deferred all_flags deferred_offline discover discover_cpu discover_cpus
    discover_each_cpu discover_each_node discover_memory discover_node discover_nodes
    discover_topology discovered filed_call flags_after flags_asked linked_node packages_call
    read_cpu read_node discover_system add_to_package discover_packages file_cpu file_cpus
program = tt

whole_run :
    discover_system read_file glob put_online put_offline []
    ≡ ok (record {
      flags = 1;
      path = "/sys";
      packages = some (
          (
            pos 0,
            record { id = pos 0; cpus = id_set (pos 1 ∷ pos 0 ∷ []); nodes = id_set (pos 0 ∷ []) },
          )
          ∷ []);
      nodes = some (
          (
            pos 0,
            record {
              path = "/sys/devices/system/node/node0";
              id = pos 0;
              cpus = id_set (pos 1 ∷ pos 0 ∷ []);
              distance = pos 10 ∷ pos 20 ∷ [];
              memory = nil_set;
            },
          )
          ∷ []);
      cpus = some ((pos 0, thread 0) ∷ (pos 1, thread 1) ∷ []);
      offline = id_set (pos 1 ∷ []);
    })
unfolding program
whole_run = refl

discover_system-IsDiscovered_example :
    Settles IsDiscovered (discover_system read_file glob put_online put_offline [])
unfolding flags_after flags_asked
discover_system-IsDiscovered_example =
    discover_system-IsDiscovered read_file glob (λ path. contents_calm (get path files)) put_online
      put_offline (λ id e. ground arith) (λ id e. ground arith) [] refl

-- CPU 0 is in package 0 and CPU 1 in package 1.
abbrev apart : GoMap ℤ Cpu
apart = (pos 0, thread 0) ∷ (pos 1, record (thread 1) { pkg = pos 1 }) ∷ []

abbrev two_packages : System
two_packages = record {
  flags = 1;
  path = "/sys";
  packages = none;
  nodes = none;
  cpus = some apart;
  offline = id_set [];
}

apart-IsFiled : IsFiled apart
unfolding get
apart-IsFiled i cpu e = ground arith

discover_packages_lem_example :
    (pkgs : GoMap ℤ Package) × (discover_packages two_packages
      ≡ some (record two_packages { packages = some pkgs }))
    × Distinct (keys pkgs)
    × ((p : ℤ) (pkg : Package) → get p pkgs ≡ some pkg → pkg.id ≡ p)
    × ((p x : ℤ) → listed pkgs p x ≡ belongs apart p x)
discover_packages_lem_example = discover_packages_lem two_packages refl apart-IsFiled

-- The list `0-3,8`.
abbrev low_and_8 : List Piece
low_and_8 = single "8" ∷ []

parse_id_set-print_list_example :
    (xs : List ℤ) × (parse_id_set 44 (print_list (range "0" "3") low_and_8) (id_set [])
      ≡ parsed (id_set xs))
    × ((x : ℤ) → elem x xs ≡ any_names (range "0" "3" ∷ low_and_8) x)
parse_id_set-print_list_example = parse_id_set-print_list (range "0" "3") low_and_8 (id_set []) (
  ((tt, (refl, tt), omega arith), (tt, (refl, tt), omega arith), omega arith),
  ((tt, (refl, tt), omega arith), tt),
)
