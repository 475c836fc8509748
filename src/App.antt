-- ===== src/App.antt =====
-- src/App/Managers: what boots the device and what watches over it.
pub mod Bootstrap
pub mod Provisioning
pub mod FactoryReset
pub mod DeviceState
