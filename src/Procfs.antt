-- ===== src/Procfs.antt =====
-- pkg/procfs/cmdline.go: the command line of the kernel and the CPUs that it isolates, and
-- cmd/cpu-pool-policy/pool/config.go: `isolatedCPUSet`.
pub mod Text
pub mod Cmdline
pub mod Words
pub use Text.*
pub mod Items
pub mod Isolated
pub mod Tests
