-- ===== src/Connectivity.antt =====
-- `ConnectivityGate` of src/Contracts/Connectivity/ConnectivityGate.h: the bits of the latch of the
-- platform, which keeps the bits that are set and not cleared.
use io_tsmart_sys_core.Base.{Bool, false, ◌&&◌}

pub record Bits : Type 0 where
  pub wifi_connected : Bool
  pub ip_ready : Bool
  pub mqtt_connected : Bool
  pub app_network_busy : Bool

-- `clearBits` of all four bits, as the Wi-Fi manager asks for them.
abbrev pub no_bits : Bits
no_bits = record {
  wifi_connected = false;
  ip_ready = false;
  mqtt_connected = false;
  app_network_busy = false;
}

abbrev pub is_network_ready : Bits → Bool
is_network_ready b = b.wifi_connected && b.ip_ready

abbrev pub is_mqtt_ready : Bits → Bool
is_mqtt_ready b = b.wifi_connected && (b.ip_ready && b.mqtt_connected)
