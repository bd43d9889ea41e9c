-- ===== src/Types.antt =====
-- crates/tryke_types/src/lib.rs: the values that the parts of the program hand to one another.
pub mod Item
pub mod Select
pub mod Chosen
pub mod Outcome
pub mod Summary
mod Samples
pub use Item.*
