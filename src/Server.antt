-- ===== src/Server.antt =====
-- crates/tryke_server: the requests of a client and how a connection answers them.
pub mod Protocol
pub mod Handler
pub mod Selection
pub mod Answers
pub mod Answering
pub mod Replies
mod Samples
