-- ===== src/Errors.antt =====
-- The errors that the packages build with `fmt.Errorf`, as data in place of formatted text.
use cpu_policy_plugins_for_k.Prelude.{String}
use cpu_policy_plugins_for_k.Prelude.Int.{ℤ}

pub data Error : Type 0 where
  -- pkg/cpuallocator
  not_enough_cpus : ℤ → Error
  -- pkg/sysfs
  sysfs_error : String → Error
  -- No error that the program reports: the call never comes back.
  endless_loop : Error
  -- cmd/cpu-pool-policy/pool
  unusable_pool : String → Error
  pool_does_not_exist : String → Error
  pool_not_found : String → Error
  missing_pool : String → Error
  no_reserved_configuration : Error
  cpu_0_not_reserved : Error
  failed_to_reserve : ℤ → Error
  cannot_restore : String → Error
  leftover_claimed_twice : String → String → Error
  cpus_not_isolated : String → Error
  cpus_not_available : String → Error
  cannot_put_offline : String → Error
  no_leftover_isolated : String → Error
  no_leftover : String → Error
  pool_busy : String → Error
  cannot_reallocate : String → String → Error
  isolated_changed : Error
  -- cmd/cpu-pool-policy/pool/config.go
  needs_explicit_cpuset : String → Error
  cannot_use_isolated : String → Error
  cannot_disable_ht : String → Error
  leftover_cannot_be_ht_free : String → Error
  invalid_cpuset : String → Error
  configured_not_isolated : String → Error
  configured_isolated : String → Error
  invalid_frequency : String → Error
  -- cmd/cpu-pool-policy/metrics
  update_failed : Error
