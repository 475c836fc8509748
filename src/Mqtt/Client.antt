-- ===== src/Mqtt/Client.antt =====
-- src/Contracts/Mqtt/IMqttClient.h: the client that `MqttService` drives. What it does is not
-- assumed, so it is a parameter with a state of its own.
use io_tsmart_sys_core.Base.{ℕ, Bool, List, Option, Text}
use io_tsmart_sys_core.Transport.{TransportConfig, MessageView}

pub record MqttClient : Type 1 where
  pub State : Type 0
  pub begin : TransportConfig → State → Bool × State
  pub start : State → State
  pub stop : State → State
  pub handle : State → State
  pub is_connected : State → Bool
  pub publish : Option Text → List ℕ → Bool → State → Bool × State
  pub republish : MessageView → State → Bool × State
  pub subscribe : Text → State → Bool × State
