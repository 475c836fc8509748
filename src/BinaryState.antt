-- ===== src/BinaryState.antt =====
-- The persisted on/off state of binary capabilities.
pub mod Records
pub mod Nvs
pub mod Store
pub mod View
pub mod Save
pub mod Valid
pub mod Boot
pub mod Durable
pub mod Drain
pub mod Tests
