-- ===== src/Memory.antt =====
-- crates/moearc-engine/src/memory.rs: how many experts stay in VRAM, and how much context is
-- served. `Types` has the data, `Planner` and `Llama` the functions;
-- the other children prove.
pub mod Types
pub mod Planner
pub mod Feasible
pub mod Yield
pub mod Settle
pub mod Complete
pub mod Sound
pub mod Accept
pub mod Plan
pub mod Rationale
pub mod Llama
pub mod Blocks
mod Tests
