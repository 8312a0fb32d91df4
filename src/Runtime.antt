-- ===== src/Runtime.antt =====
-- What Go leaves open and the code lives with: the order in which `range` visits a map, and the
-- order of equal elements (or any order, if the test is no order) after `sort.Slice`.
mod Api
mod ById
mod ByName
pub mod Insertion
pub use Api.*
pub use ById.*
pub use ByName.*
