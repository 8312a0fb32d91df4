-- ===== src/Pool.antt =====
-- cmd/cpu-pool-policy/pool/pool.go: the pools of a node, the containers assigned to them, and the
-- configuration that the pools follow.
pub mod State
pub mod Figures
pub mod Allocation
pub mod Reserve
pub mod Prepare
pub mod Restore
pub mod Reconcile
pub mod Release
pub mod Queries
pub mod Resources
pub mod Assignments
pub mod Checkpoint
pub mod Restored
pub mod Told
pub mod Picks
pub mod Picking
pub mod Reserving
pub mod Wildcard
pub mod Claims
pub mod Apart
pub mod Pooled
pub mod Weights
pub mod Balance
pub mod Preserve
pub mod Refused
pub mod Books
pub mod Requests
pub mod Releases
pub mod Roundtrip
pub mod Granted
pub mod Conserved
pub mod Effects
pub mod Tests
pub mod ConfigTests
