-- ===== src/Filter.antt =====
-- crates/tryke_types/src/filter.rs
pub mod Syntax
pub mod Lexer
pub mod Parser
pub mod Grammar
pub mod Sound
pub mod Reads
pub mod Spelling
pub mod Print
pub mod Matching
pub mod Matches
mod Samples
