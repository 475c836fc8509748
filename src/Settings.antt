-- ===== src/Settings.antt =====
-- src/Contracts/Settings and src/Core/Settings/SettingsManager.cpp
pub mod Mqtt
pub mod Wifi
pub mod Config
pub mod Manager
