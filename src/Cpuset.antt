-- ===== src/Cpuset.antt =====
-- The CPU sets of Kubernetes (package cpuset under vendor/): an interface of operations and laws,
-- what follows from the laws, and an instance by sorted lists.
mod Order
mod Api
mod Slices
mod Sizes
pub mod SortedList
pub use Order.*
pub use Api.*
pub use Slices.*
pub use Sizes.*
