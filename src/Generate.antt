-- ===== src/Generate.antt =====
-- crates/moearc-engine/src/session.rs and crates/moearc-server/src/generate.rs: the decode loop, once
-- over any model (`Drive`) and once over the device thread (`Session`, served by `Device`).
pub mod Types
pub mod Drive
pub mod Emits
pub mod Driven
pub mod Device
pub mod Session
pub mod Tracked
pub mod Greedy
mod Tests
