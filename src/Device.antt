-- ===== src/Device.antt =====
-- crates/moearc-device/src/fitness.rs, with the parts of lib.rs, sysman.rs and pci.rs that it reads:
-- which card the engine may plan against, and with how many bytes.
pub mod Types
pub mod Fitness
pub mod Target
pub mod Reading
pub mod HostSide
pub mod Answer
mod Tests
