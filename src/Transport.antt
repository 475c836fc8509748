-- ===== src/Transport.antt =====
-- src/Contracts/Transports: what passes between the transports and the rest of the program.
pub mod Hub
use io_tsmart_sys_core.Base.{ℕ, Bool, List, Option, Text}

pub data TransportKind : Type 0 where
  event command ack raw : TransportKind

-- `TransportMessageView`; the payload comes with its length, and a null pointer is `none`.
pub record MessageView : Type 0 where
  pub topic : Option Text
  pub payload : List ℕ
  pub retain : Bool
  pub kind : TransportKind
  pub id : ℕ
  pub origin : Option Text
  pub hops : ℕ

-- `TransportConfig`
pub record TransportConfig : Type 0 where
  pub uri : Option Text
  pub client_id : Option Text
  pub username : Option Text
  pub password : Option Text
  pub subscribe_topic : Option Text
  pub publish_topic : Option Text
  pub keep_alive_sec : ℕ
  pub clean_session : Bool
