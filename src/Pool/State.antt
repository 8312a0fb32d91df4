-- ===== src/Pool/State.antt =====
-- cmd/cpu-pool-policy/pool/pool.go: the state, and what it takes from outside. The fields
-- `topology` and `free` are left out: nothing reads or writes them.
use cpu_policy_plugins_for_k.Prelude.{
  ℕ, ◌*◌, ◌+◌, Bool, ◌||◌, Option, List, String, string_eq, ◌==◌, if◌then◌else◌,
}
use cpu_policy_plugins_for_k.Prelude.GoMap.{GoMap}
use cpu_policy_plugins_for_k.Prelude.Int.{ℤ, pos, negsuc, wrap64}
use cpu_policy_plugins_for_k.Prelude.Outcome.{Outcome, ok, err}
use cpu_policy_plugins_for_k.Errors.{Error, unusable_pool}
use cpu_policy_plugins_for_k.Cpuset.{Cpusets}
use cpu_policy_plugins_for_k.Sysfs.{System}
use cpu_policy_plugins_for_k.Metrics.{Metrics}
use cpu_policy_plugins_for_k.Config.{Config, NodeConfig, ignored_pool, offline_pool}

module _ ⦃c : Cpusets⦄ where
  open c use {CPUSet}

  -- A container assigned to run in a pool; `cpus` is empty if it shares the pool's CPUs.
  pub record Container : Type 0 where
    pub id : String
    pub pool : String
    pub cpus : CPUSet
    pub req : ℤ

  -- A pool; `cfg` is none where the pointer is nil.
  pub record Pool : Type 0 where
    pub shared : CPUSet
    pub pinned : CPUSet
    pub used : ℤ
    pub cfg : Option Config

  pub record PoolSet : Type 0 where
    pub pools : GoMap String Pool
    pub containers : GoMap String Container
    pub sys : System
    pub offlined : CPUSet
    pub metrics : Metrics
    pub current_cfg : Option NodeConfig
    pub pending_cfg : Option NodeConfig

  -- What the pools take from outside: the machine that the allocator discovered (`none` if it
  -- failed), the kernel's isolated CPUs, and how writes under /sys end: to the file `online` of a
  -- CPU, in the call that sets all CPUs online and in the one that sets some offline, and to the
  -- files of its frequency limits.
  pub record Host : Type 0 where
    pub allocator_system : Option System
    pub isolated_cpus : CPUSet
    pub write_online : Bool → ℤ → Outcome Error ℤ
    pub online_entries : List ℤ
    pub write_frequency : String → ℤ → ℕ → Outcome Error (Unit {0})

-- `numCPUs * 1000` as an `int64`.
abbrev pub thousands : ℤ → ℤ
thousands (pos n) = pos (1000 * n)
thousands (negsuc n) = negsuc (1000 * n + 999)

unfoldable pub milli_cpus : ℤ → ℤ
milli_cpus n = wrap64 (thousands n)

-- `isAllowedPool`
unfoldable pub is_allowed_pool : String → Outcome Error (Unit {0})
is_allowed_pool pool =
    if pool == ignored_pool || pool == offline_pool then err (unusable_pool pool) else ok tt
