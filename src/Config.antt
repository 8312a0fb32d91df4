-- ===== src/Config.antt =====
-- cmd/cpu-pool-policy/pool/config.go: the configuration of a node's pools.
mod Types
pub mod Frequency
pub mod Decimal
pub mod Parsing
pub mod Required
pub mod Coming
pub mod Accepted
pub mod Tests
unfoldable pub use Types.*
