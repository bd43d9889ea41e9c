-- ===== src/Pool.antt =====
-- crates/tryke_runner/src/pool.rs and the requests of crates/tryke_runner/src/worker.rs: a worker
-- task, which owns one Python process at a time. What is outside of the task answers each request
-- from the whole history of requests, in any way it likes; the history is kept as a log.
pub mod Wire
pub mod Worker
pub mod Answers
pub mod Knowing
pub mod Ready
pub mod Caching
pub mod Backing
pub mod Backed
pub mod Stderr
mod Samples
mod StderrSamples
