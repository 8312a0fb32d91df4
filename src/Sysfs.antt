-- ===== src/Sysfs.antt =====
-- pkg/sysfs: sets of ids, the packages, nodes and CPUs of a machine, and the settings of a CPU.
mod Sets
mod Machine
pub mod SetLaws
pub mod Control
pub mod ControlLaws
pub mod Entries
pub mod Packages
pub mod Discovery
pub mod Filed
pub mod Stages
mod Readings
pub mod Discovered
pub mod Lists
pub mod DiscoveryTests
pub mod Tests
unfoldable pub use Sets.*
unfoldable pub use Machine.*
