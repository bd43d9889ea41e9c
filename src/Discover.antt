-- ===== src/Discover.antt =====
-- crates/tryke_discovery: which files are parsed, what is remembered of them, and which imports
-- lead from one to another.
pub mod Imports
pub mod Cache
pub mod Files
pub mod State
pub mod Rediscover
pub mod Change
pub mod Phases
pub mod Memos
pub mod Stored
pub mod Found
pub mod Linked
pub mod Tracked
pub mod Full
pub mod Kept
pub mod Noted
pub mod Refreshed
pub mod Changed
pub mod Save
pub mod Saved
pub mod New
pub mod Impact
pub mod Applied
pub mod Runs
mod Samples
mod SaveSamples
