-- ===== src/Wifi/Loop/Tests.antt =====
-- Runs of `WiFiManager` of src/Platform/Espressif/Wifi/WiFiManager.cpp, and the theorems there.
use io_tsmart_sys_core.Base.{
  ℕ, ◌≡◌, refl, true, false, List, [], ◌∷◌, Option, some, codes, arith, text_eq,
}
use io_tsmart_sys_core.Base.Int.{ℤ, pos, negsuc}
use io_tsmart_sys_core.Connectivity.{is_network_ready}
use io_tsmart_sys_core.Settings.Config.{Settings}
use io_tsmart_sys_core.Settings.Manager.Loop.{default_settings}
use io_tsmart_sys_core.Wifi.{
  Credential, WifiConfig, Wifi, AccessPoint, connecting, connected, backoff_waiting, default_config,
  new_wifi, configured, disconnect, join_target,
}
use io_tsmart_sys_core.Wifi.Select.{
  Scanned, is_candidate, in_turn, aimed, select_best_access_point, is_better,
  update_access_point_cache, evaluate_better_access_point, note_scan, note_scanned, store, prune,
  keep, strongest, is_configured_ssid, password_for_configured_ssid, best_of, prepare,
}
use io_tsmart_sys_core.Wifi.Select.Choice.{Chosen}
use io_tsmart_sys_core.Wifi.Select.Best.{
  Roams, select_best_access_point_lem, evaluate_better_access_point_lem,
}
use io_tsmart_sys_core.Wifi.Select.Cache.{Distinct, Renewed, update_access_point_cache-Distinct}
use io_tsmart_sys_core.Wifi.Loop.{
  Radio, associated, got_ip, is_connected, handle, start_connect, connect_with, aim, begin,
}
use io_tsmart_sys_core.Wifi.Loop.Gate.{
  Call, begun, handled, happened, others, run, IsHonest, run-new-IsHonest,
}
use io_tsmart_sys_core.Wifi.Loop.Retry.{
  reconnected, backoff_comes_up, Ends, extends, handle_gives_up,
}

abbrev home : Credential
home = record { ssid = some (codes "home"); password = some (codes "pw") }

abbrev config : WifiConfig
config = record default_config { credentials = home ∷ [] }

abbrev near : List ℕ
near = 1 ∷ 1 ∷ 1 ∷ 1 ∷ 1 ∷ 1 ∷ []

abbrev far : List ℕ
far = 2 ∷ 2 ∷ 2 ∷ 2 ∷ 2 ∷ 2 ∷ []

abbrev seen : List ℕ → ℤ → Scanned
seen b r = record { ssid = codes "home"; bssid = some b; channel = pos 6; rssi = r }

abbrev radio : Radio
radio = record {
  now = 5000;
  later = 5000;
  after_scan = 6000;
  random = 7;
  link_up = true;
  ssid = codes "home";
  mac_address = codes "m";
  local_ip = codes "10.0.0.2";
  rssi_text = codes "-60";
  current = record { bssid = some far; rssi = negsuc 79 };
  scan = seen far (negsuc 79) ∷ seen near (negsuc 49) ∷ [];
  time_is_valid = true;
}

-- The nearer access point is joined.
joins_near :
    (begin [] config radio new_wifi).radio
    ≡ disconnect ∷ join_target (codes "home") (codes "pw") (pos 6) near ∷ []
unfolding begin start_connect connect_with aim select_best_access_point configured
    update_access_point_cache note_scan note_scanned store prune keep strongest is_configured_ssid
    text_eq
joins_near = refl

abbrev calls : List Call
calls =
    begun config radio
    ∷ happened (associated 6500)
    ∷ happened (got_ip true)
    ∷ handled radio
    ∷ others true false
    ∷ []

run-new-IsHonest_example :
    IsHonest
      (run [] calls new_wifi).bits
      (run [] calls new_wifi).got_ip
      (run [] calls new_wifi).associated
run-new-IsHonest_example = run-new-IsHonest [] calls

abbrev waiting : Wifi
waiting = record new_wifi {
  cfg = config;
  state = backoff_waiting;
  attempt = 3;
  next_action_at_ms = 4000;
}

backoff_comes_up_example :
    ((reconnected [] radio radio 5500 waiting).state ≡ connected)
    × (is_network_ready (reconnected [] radio radio 5500 waiting).bits ≡ true)
    × ((reconnected [] radio radio 5500 waiting).attempt ≡ 0)
unfolding configured
backoff_comes_up_example =
    backoff_comes_up [] radio radio 5500 waiting home [] refl refl (omega arith) refl

abbrev trying : Wifi
trying = record waiting { state = connecting }

handle_gives_up_example : Ends (extends trying) radio trying (handle [] radio trying)
unfolding is_connected
handle_gives_up_example = handle_gives_up [] radio trying (omega arith) (omega arith) refl refl refl

select_best_access_point_example :
    ((select_best_access_point [] 5000 radio.scan waiting).ap_cache
      ≡ update_access_point_cache [] config 5000 radio.scan [])
    × ((o : Option AccessPoint) × ((select_best_access_point [] 5000 radio.scan waiting).target
          ≡ aimed (in_turn (home ∷ []) waiting.credential_attempt_index) o)
        × Chosen
            (is_candidate config 5000 (in_turn (home ∷ []) waiting.credential_attempt_index).ssid)
            (update_access_point_cache [] config 5000 radio.scan [])
            o)
unfolding configured
select_best_access_point_example =
    select_best_access_point_lem [] 5000 radio.scan waiting home []
      (update_access_point_cache [] config 5000 radio.scan []) refl refl

evaluate_better_access_point_example :
    Roams
      (is_better (home ∷ []) config 5000 radio.current.bssid radio.current.rssi)
      (home ∷ [])
      (update_access_point_cache [] config 5000 radio.scan [])
      (record waiting { ap_cache = update_access_point_cache [] config 5000 radio.scan [] })
      (evaluate_better_access_point [] 5000 radio.scan radio.current waiting)
unfolding configured
evaluate_better_access_point_example =
    evaluate_better_access_point_lem [] 5000 radio.scan radio.current waiting (home ∷ [])
      (update_access_point_cache [] config 5000 radio.scan []) refl refl

-- The access point in use is 30 dB weaker, so that the other one is taken.
roams_to_near : (evaluate_better_access_point [] 5000 radio.scan radio.current waiting).1 ≡ true
unfolding evaluate_better_access_point prepare best_of password_for_configured_ssid configured
    update_access_point_cache note_scan note_scanned store prune is_configured_ssid text_eq
roams_to_near = refl

update_access_point_cache_example :
    Distinct (update_access_point_cache [] config 5000 radio.scan [])
    × Renewed config 5000 radio.scan [] (update_access_point_cache [] config 5000 radio.scan [])
update_access_point_cache_example =
    update_access_point_cache-Distinct [] config 5000 radio.scan [] tt

abbrev settings : Settings
settings = record default_settings {
  wifi = record w {
    secondary = record { ssid = codes "s"; password = codes "p" };
    profile = codes "secondary";
  };
}
  where
    open default_settings use {wifi as w}
