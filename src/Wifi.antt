-- ===== src/Wifi.antt =====
-- `WiFiManager` of src/Contracts/Connections/WiFiManager.h and
-- src/Platform/Espressif/Wifi/WiFiManager.cpp: configuration and state. The commands to the radio
-- are listed in the state, oldest first; what the radio answers comes with a call.
pub mod Profiles
pub mod Select
pub mod Loop
use io_tsmart_sys_core.Base.{
  ◌||◌, ℕ, ◌&&◌, not, Bool, true, false, List, [], ◌∷◌, ◌++◌, Option, none, some, Text, codes,
  text_eq, is_empty, length, ltb, ◌==◌, if◌then◌else◌,
}
use io_tsmart_sys_core.Base.Int.{ℤ, negsuc, pos}
use io_tsmart_sys_core.Backoff.{Policy}
use io_tsmart_sys_core.Connectivity.{Bits, no_bits}
use io_tsmart_sys_core.Settings.Wifi.{
  WifiConfig as StoredWifi, WifiProfile, profile_is_valid, wifi_is_valid,
}
use io_tsmart_sys_core.Settings.Config.{Settings}

pub record Credential : Type 0 where
  pub ssid : Option Text
  pub password : Option Text

-- `WiFiConfig`; `credentials` holds the first `credentialCount` entries.
pub record WifiConfig : Type 0 where
  pub ssid : Option Text
  pub password : Option Text
  pub credentials : List Credential
  pub backoff : Policy
  pub connect_timeout_ms : ℕ
  pub dhcp_timeout_ms : ℕ
  pub reconnect_min_uptime_ms : ℕ
  pub roam_check_interval_ms : ℕ
  pub roam_cooldown_ms : ℕ
  pub roam_scan_cache_max_age_ms : ℕ
  pub roam_rssi_threshold : ℤ
  pub roam_candidate_min_rssi : ℤ
  pub roam_min_improvement_db : ℤ
  pub mesh_roaming : Bool
  pub persistent : Bool
  pub auto_reconnect : Bool

-- The lambda `append` of `loadFromSettings`.
unfoldable pub append_profile : WifiProfile → List Credential → List Credential
append_profile p cs =
    if not (profile_is_valid p) || not (ltb (length cs) 3)
    then cs
    else cs ++ record { ssid = some p.ssid; password = some p.password } ∷ []

unfoldable pub profiles : StoredWifi → List Credential
profiles w =
    if text_eq w.profile (codes "tertiary")
    then append_profile w.secondary (append_profile w.primary (append_profile w.tertiary []))
    else if text_eq w.profile (codes "secondary")
    then append_profile w.tertiary (append_profile w.primary (append_profile w.secondary []))
    else append_profile w.tertiary (append_profile w.secondary (append_profile w.primary []))

unfoldable pub with_credentials : StoredWifi → List Credential → WifiConfig → WifiConfig
with_credentials w [] cfg = record cfg {
  credentials = [];
  ssid = some w.ssid;
  password = some w.password;
}
with_credentials w (c ∷ cs) cfg = record cfg {
  credentials = c ∷ cs;
  ssid = c.ssid;
  password = c.password;
}

unfoldable pub load_from_settings : Settings → WifiConfig → WifiConfig × Bool
load_from_settings s cfg =
    if not (wifi_is_valid s.wifi)
    then (cfg, false)
    else (with_credentials s.wifi (profiles s.wifi) cfg, true)

pub data WifiState : Type 0 where
  idle connecting connected backoff_waiting : WifiState

-- `ScannedAccessPoint`; a BSSID is the list of its six bytes.
pub record AccessPoint : Type 0 where
  pub ssid : Text
  pub bssid : List ℕ
  pub channel : ℤ
  pub rssi : ℤ
  pub last_seen_ms : ℕ

-- `target_bssid` is there where `_hasTargetBssid`.
pub record Target : Type 0 where
  pub ssid : Text
  pub password : Text
  pub bssid : Option (List ℕ)
  pub channel : ℤ
  pub rssi : ℤ

-- The calls of the radio that change a connection. `join_target` gives channel and BSSID.
pub data Command : Type 0 where
  disconnect : Command
  join : Option Text → Option Text → Command
  join_target : Text → Text → ℤ → List ℕ → Command

pub record Wifi : Type 0 where
  pub cfg : WifiConfig
  pub state : WifiState
  pub ssid : Text
  pub mac_address : Text
  pub ip_address : Text
  pub signal_strength : Text
  pub attempt : ℕ
  pub next_action_at_ms : ℕ
  pub last_roam_check_ms : ℕ
  pub last_rssi_roam_attempt_ms : ℕ
  pub credential_attempt_index : ℕ
  pub last_disconnect_reason : ℕ
  pub dhcp_wait_extensions : ℕ
  pub target : Target
  pub connected_at_ms : ℕ
  pub last_disconnected_at_ms : ℕ
  pub connection_count : ℕ
  pub associated : Bool
  pub got_ip : Bool
  pub use_prepared_target_once : Bool
  pub ntp_sync_started : Bool
  pub ntp_sync_logged : Bool
  pub ap_cache : List AccessPoint
  pub bits : Bits
  pub radio : List Command

abbrev pub no_target : Target
no_target = record { ssid = []; password = []; bssid = none; channel = pos 0; rssi = negsuc 126 }

-- What the build compiles in, where its first entry has both strings.
abbrev pub Compiled : Type 0
Compiled = List Credential

-- `cfg.ssid && cfg.ssid[0]`
abbrev pub is_set : Option Text → Bool
is_set none = false
is_set (some []) = false
is_set (some (c ∷ cs)) = true

abbrev is_given : Option Text → Bool
is_given none = false
is_given (some s) = true

-- `hasWifiCredentials`
unfoldable pub has_wifi_credentials : Compiled → Bool
has_wifi_credentials [] = false
has_wifi_credentials (c ∷ cs) = is_set c.ssid && is_given c.password

-- The credentials that `configuredCredentialCount`, `configuredSsid` and `configuredPassword` read.
unfoldable pub configured : Compiled → WifiConfig → List Credential
unfolding has_wifi_credentials
configured compiled cfg = elim cfg.credentials [
  | c ∷ cs ↦ c ∷ cs
  | [] ↦
      if is_set cfg.ssid
      then record { ssid = cfg.ssid; password = cfg.password } ∷ []
      else if has_wifi_credentials compiled
      then compiled
      else []
]

-- `WiFiConfig{}`
abbrev pub default_config : WifiConfig
default_config = record {
  ssid = none;
  password = none;
  credentials = [];
  backoff = record {
    initial_backoff_ms = 1000;
    max_backoff_ms = 60000;
    jitter_ms = 250;
    max_fast_retries = 5;
  };
  connect_timeout_ms = 15000;
  dhcp_timeout_ms = 45000;
  reconnect_min_uptime_ms = 3000;
  roam_check_interval_ms = 30000;
  roam_cooldown_ms = 60000;
  roam_scan_cache_max_age_ms = 120000;
  roam_rssi_threshold = negsuc 74;
  roam_candidate_min_rssi = negsuc 74;
  roam_min_improvement_db = pos 8;
  mesh_roaming = true;
  persistent = false;
  auto_reconnect = false;
}

abbrev pub new_wifi : Wifi
new_wifi = record {
  cfg = default_config;
  state = idle;
  ssid = [];
  mac_address = [];
  ip_address = [];
  signal_strength = [];
  attempt = 0;
  next_action_at_ms = 0;
  last_roam_check_ms = 0;
  last_rssi_roam_attempt_ms = 0;
  credential_attempt_index = 0;
  last_disconnect_reason = 0;
  dhcp_wait_extensions = 0;
  target = no_target;
  connected_at_ms = 0;
  last_disconnected_at_ms = 0;
  connection_count = 0;
  associated = false;
  got_ip = false;
  use_prepared_target_once = false;
  ntp_sync_started = false;
  ntp_sync_logged = false;
  ap_cache = [];
  bits = no_bits;
  radio = [];
}
