-- ===== src/Mqtt.antt =====
-- src/Core/Services/MqttService.h and src/Core/Services/MqttService.cpp, at the one instantiation
-- of the template, `MqttService<12, 16, 256>`.
pub mod Queue
pub mod Broker
pub mod Client
pub mod Service
pub mod Connect
pub mod Loop
pub mod Calls
mod Tests
