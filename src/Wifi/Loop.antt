-- ===== src/Wifi/Loop.antt =====
-- The connection of `WiFiManager` in src/Platform/Espressif/Wifi/WiFiManager.cpp: `begin`,
-- `startConnect`, `scheduleRetry`, `handle` and `onWiFiEvent`.
pub mod Gate
pub mod Retry
mod Tests
use io_tsmart_sys_core.Base.{
  get_or, ℕ, ◌+◌, ◌%◌, ◌&&◌, ◌||◌, not, Bool, true, false, List, [], ◌∷◌, ◌++◌, Option, none, some,
  Text, length, leb, ltb, ◌==◌, if◌then◌else◌, u32, sub32, is_empty,
}
use io_tsmart_sys_core.Base.Int.{ℤ, int_leb}
use io_tsmart_sys_core.Backoff.{compute_backoff_ms}
use io_tsmart_sys_core.Connectivity.{Bits, no_bits}
use io_tsmart_sys_core.Wifi.{
  Credential, WifiConfig, WifiState, idle, connecting, connected, backoff_waiting, Target, Command,
  disconnect, join, join_target, Wifi, Compiled, configured, no_target,
}
use io_tsmart_sys_core.Wifi.Select.{
  Scanned, Current, select_best_access_point, evaluate_better_access_point, no_credential,
}

-- What one call meets: the clock (as uint32) when it begins, in `scheduleRetry` and the choice of a
-- target, and after the scan; the random number of the jitter; what the radio answers.
pub record Radio : Type 0 where
  pub now : ℕ
  pub later : ℕ
  pub after_scan : ℕ
  pub random : ℕ
  pub link_up : Bool
  pub ssid : Text
  pub mac_address : Text
  pub local_ip : Text
  pub rssi_text : Text
  pub current : Current
  pub scan : List Scanned
  pub time_is_valid : Bool

abbrev pub send : List Command → Wifi → Wifi
send commands w = record w { radio = w.radio ++ commands }

abbrev pub clear_bits : Wifi → Wifi
clear_bits w = record w { bits = no_bits }

unfoldable pub is_connected : Radio → Wifi → Bool
is_connected r w = w.got_ip && r.link_up

unfoldable pub schedule_retry : Radio → Wifi → Wifi
schedule_retry r w =
    let attempt = u32 (w.attempt + 1) in
    record w {
      attempt = attempt;
      credential_attempt_index = (w.credential_attempt_index + 1) % 65536;
      next_action_at_ms = u32 (r.later + compute_backoff_ms w.cfg.backoff attempt r.random);
      state = backoff_waiting;
    }

abbrev pub first_credential : List Credential → Credential
first_credential cs = get_or cs 0 no_credential

-- `empty() ? configured : c_str()`
abbrev pub or_configured : Text → Option Text → Option Text
or_configured [] configured = configured
or_configured (c ∷ cs) configured = some (c ∷ cs)

abbrev pub join_command : List Credential → Target → Command
join_command cs t = elim t.bssid [
  | some bssid ↦ join_target t.ssid t.password t.channel bssid
  | none ↦
      join (or_configured t.ssid (first_credential cs).ssid)
        (or_configured t.password (first_credential cs).password)
]

abbrev pub has_target : Target → Bool
has_target t = elim t.bssid [ none ↦ false | some _ ↦ true ]

-- The prepared target is used once; otherwise a target is chosen.
unfoldable pub aim : Compiled → Radio → Wifi → Wifi
aim compiled r w =
    let once = record w { use_prepared_target_once = false } in
    if w.use_prepared_target_once && has_target w.target
    then once
    else select_best_access_point compiled r.later r.scan once

-- The state in which a new attempt begins.
abbrev pub dropped : Wifi → Wifi
dropped w = clear_bits (
    send (disconnect ∷ []) (record w {
      associated = false;
      got_ip = false;
      dhcp_wait_extensions = 0;
      state = connecting;
    }))

-- `startConnect` over the configured credentials.
unfoldable pub connect_with : Compiled → Radio → List Credential → Wifi → Wifi
connect_with compiled r [] w = w
connect_with compiled r (c ∷ cs) w =
    let aimed = aim compiled r (dropped w) in
    send (join_command (c ∷ cs) aimed.target ∷ [])
      (record aimed { next_action_at_ms = u32 (r.after_scan + w.cfg.connect_timeout_ms) })

unfoldable pub start_connect : Compiled → Radio → Wifi → Wifi
unfolding connect_with
start_connect compiled r w = connect_with compiled r (configured compiled w.cfg) w

unfoldable pub begin : Compiled → WifiConfig → Radio → Wifi → Wifi
begin compiled cfg r w = start_connect compiled r (
    clear_bits (record w {
      cfg = cfg;
      attempt = 0;
      associated = false;
      got_ip = false;
      state = connecting;
      next_action_at_ms = 0;
    }))

abbrev pub is_due : Radio → Wifi → Bool
is_due r w = not (w.next_action_at_ms == 0) && leb w.next_action_at_ms r.now

abbrev pub come_up : Radio → Wifi → Wifi
come_up r w = record w {
  state = connected;
  connected_at_ms = r.now;
  attempt = 0;
  credential_attempt_index = 0;
  ssid = r.ssid;
  mac_address = r.mac_address;
  ip_address = r.local_ip;
  signal_strength = r.rssi_text;
  last_roam_check_ms = r.now;
  bits = record b { wifi_connected = true; ip_ready = true };
}
  where
    open w use {bits as b}

unfoldable pub handle_connecting : Radio → Wifi → Wifi
unfolding is_connected
handle_connecting r w =
    if is_connected r w
    then come_up r w
    else if w.associated && is_due r w
    then if w.dhcp_wait_extensions == 0
      then record w {
        dhcp_wait_extensions = 1;
        next_action_at_ms = u32 (r.now + w.cfg.dhcp_timeout_ms);
      }
      else schedule_retry r (send (disconnect ∷ []) (clear_bits w))
    else if is_due r w
    then schedule_retry r w
    else w

unfoldable pub handle_backoff : Compiled → Radio → Wifi → Wifi
handle_backoff compiled r w =
    if leb w.next_action_at_ms r.now then start_connect compiled r w else w

abbrev pub note_time : Radio → Wifi → Wifi
note_time r w =
    if w.ntp_sync_started && (not w.ntp_sync_logged && r.time_is_valid)
    then record w { ntp_sync_logged = true }
    else w

abbrev pub note_loss : Radio → Wifi → Wifi
note_loss r w = if not (is_connected r w) then schedule_retry r (clear_bits w) else w

abbrev pub is_cooling_down : Radio → Wifi → Bool
is_cooling_down r w =
    not (w.last_rssi_roam_attempt_ms == 0)
    && ltb (sub32 r.now w.last_rssi_roam_attempt_ms) w.cfg.roam_cooldown_ms

abbrev pub switch_if_better : Compiled → Radio → Wifi × Bool → Wifi
switch_if_better compiled r (w, better) =
    if better then start_connect compiled r (send (disconnect ∷ []) w) else w

-- The signal is good enough, or a check is not wanted now.
abbrev pub must_stay : Radio → Wifi → Bool
must_stay r w =
    not (int_leb r.current.rssi w.cfg.roam_rssi_threshold)
    || (is_cooling_down r w || w.bits.app_network_busy)

abbrev pub checked : Radio → Wifi → Wifi
checked r w = record w { last_roam_check_ms = r.now; signal_strength = r.rssi_text }

-- The check of the signal, once its interval has passed.
unfoldable pub roam : Compiled → Radio → Wifi → Wifi
roam compiled r w =
    if must_stay r w
    then checked r w
    else switch_if_better compiled r (
        evaluate_better_access_point compiled r.later r.scan r.current (record w {
          last_roam_check_ms = r.now;
          signal_strength = r.rssi_text;
          last_rssi_roam_attempt_ms = r.now;
        }))

abbrev pub is_roam_due : Radio → Wifi → Bool
is_roam_due r w =
    w.cfg.mesh_roaming && leb w.cfg.roam_check_interval_ms (sub32 r.now w.last_roam_check_ms)

-- A lost connection is followed by the roaming check in the same call.
unfoldable pub handle_connected : Compiled → Radio → Wifi → Wifi
unfolding is_connected roam
handle_connected compiled r w =
    let noted = note_loss r (note_time r w) in
    if is_roam_due r w then roam compiled r noted else noted

-- The switch over the state.
unfoldable pub handle_in : WifiState → Compiled → Radio → Wifi → Wifi
handle_in idle compiled r w = w
handle_in connecting compiled r w = handle_connecting r w
handle_in backoff_waiting compiled r w = handle_backoff compiled r w
handle_in connected compiled r w = handle_connected compiled r w

unfoldable pub handle : Compiled → Radio → Wifi → Wifi
unfolding handle_in
handle compiled r w = handle_in w.state compiled r w

-- The events that `onWiFiEvent` reacts to; `got_ip` comes with `hasUsableDns()`, `lost` with its
-- reason. The clock comes with each.
pub data Event : Type 0 where
  associated : ℕ → Event
  got_ip : Bool → Event
  lost : ℕ → ℕ → Event

unfoldable pub on_wifi_event : Event → Wifi → Wifi
on_wifi_event (associated now) w = record w {
  associated = true;
  got_ip = false;
  last_disconnect_reason = 0;
  next_action_at_ms = u32 (now + w.cfg.dhcp_timeout_ms);
  bits = record b { wifi_connected = true; ip_ready = false; mqtt_connected = false };
}
  where
    open w use {bits as b}
on_wifi_event (got_ip false) w = record w {
  associated = true;
  last_disconnect_reason = 0;
  got_ip = false;
  bits = record b { wifi_connected = true; ip_ready = false; mqtt_connected = false };
}
  where
    open w use {bits as b}
on_wifi_event (got_ip true) w = record w {
  associated = true;
  last_disconnect_reason = 0;
  got_ip = true;
  connection_count = u32 (w.connection_count + 1);
  ntp_sync_started = true;
  ntp_sync_logged = false;
  bits = record b { wifi_connected = true; ip_ready = true };
}
  where
    open w use {bits as b}
on_wifi_event (lost reason now) w = clear_bits (record w {
  associated = false;
  got_ip = false;
  last_disconnect_reason = reason;
  last_disconnected_at_ms = now;
})
