-- ===== src/Config/Types.antt =====
-- cmd/cpu-pool-policy/pool/config.go and pool.go: configuration records and the names of pools.
use cpu_policy_plugins_for_k.Prelude.{ℕ, Bool, Option, String}
use cpu_policy_plugins_for_k.Prelude.GoMap.{GoMap}
use cpu_policy_plugins_for_k.Prelude.Int.{ℤ, negsuc}
use cpu_policy_plugins_for_k.Cpuset.{Cpusets}

abbrev pub resource_prefix : String
resource_prefix = "intel.com/cpupool."

abbrev pub ignored_pool : String
ignored_pool = "ignored"

abbrev pub offline_pool : String
offline_pool = "offline"

abbrev pub reserved_pool : String
reserved_pool = "reserved"

abbrev pub default_pool : String
default_pool = "default"

-- The wildcard CPU set, and the count that stands for it.
abbrev pub wildcard_cpu : String
wildcard_cpu = "*"

abbrev pub claim_leftover : ℤ
claim_leftover = negsuc 0

pub record ConfigFileEntry : Type 0 where
  pub cpu_count : ℤ
  pub cpus : String
  pub isolated : Bool
  pub disable_ht : Bool
  pub min_freq : String
  pub max_freq : String

abbrev pub ConfigFile : Type 0
ConfigFile = GoMap String ConfigFileEntry

module _ ⦃c : Cpusets⦄ where
  open c use {CPUSet}

  -- `cpus` is none where the pointer is nil. Frequencies are `uint64`, in Hz.
  pub record Config : Type 0 where
    pub cpu_count : ℤ
    pub cpus : Option CPUSet
    pub isolated : Bool
    pub disable_ht : Bool
    pub min_freq : ℕ
    pub max_freq : ℕ

  -- A map to pointers: an entry is changed by putting it anew.
  abbrev pub NodeConfig : Type 0
  NodeConfig = GoMap String Config
