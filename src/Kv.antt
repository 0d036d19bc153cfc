-- ===== src/Kv.antt =====
-- crates/moearc-engine/src/kv.rs: who holds which page of the KV cache.
-- `Types` has the data, `Pages` the operations; the other children prove.
pub mod Types
pub mod Pages
pub mod Invariant
pub mod Begin
pub mod Append
pub mod Finish
mod Tests
