-- ===== src/Policy.antt =====
-- cmd/cpu-pool-policy/pool-policy-plugin.go: the CPUManager policy that serves containers from the
-- pools, with what it tells the kubelet and what it keeps across restarts.
pub mod Store
pub mod Update
pub mod Told
pub mod Restore
pub mod Restart
pub mod Plugin
pub mod Running
pub mod Steps
pub mod Safety
pub mod Releasing
pub mod Served
pub mod Lingering
pub mod Startup
pub mod Memory
pub mod Tests
