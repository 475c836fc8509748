-- ===== src/App/DeviceState.antt =====
-- `DeviceStateManager` of src/App/Managers/DeviceStateManager.cpp: the status LED.
pub mod Toggles
pub mod Output
pub mod Light
mod Tests
use io_tsmart_sys_core.Base.{
  ℕ, ◌+◌, Bool, true, false, List, [], ◌∷◌, ◌++◌, leb, ltb, sub32, if◌then◌else◌,
}
use io_tsmart_sys_core.Wifi.{WifiState, connecting, connected}

-- The states of `StateDevice` that the manager sets.
pub data DeviceState : Type 0 where
  in_provisioning connecting_to_network is_connected : DeviceState

pub data LedCommand : Type 0 where
  led_on led_off led_toggle : LedCommand

-- `sent` lists what the LED was told, oldest first.
pub record DeviceStateManager : Type 0 where
  pub has_led : Bool
  pub last_toggle_ms : ℕ
  pub blink_count : ℕ
  pub state : DeviceState
  pub is_on : Bool
  pub sent : List LedCommand

-- What one pass meets.
pub record Pass : Type 0 where
  pub now : ℕ
  pub provisioning : Bool
  pub wifi : WifiState

abbrev tell : LedCommand → DeviceStateManager → DeviceStateManager
tell c m = record m { sent = m.sent ++ c ∷ [] }

-- Blinks three times, then pauses.
unfoldable pub handle_provisioning : ℕ → DeviceStateManager → DeviceStateManager
handle_provisioning now m =
    let since = sub32 now m.last_toggle_ms in
    if m.is_on
    then if leb 100 since
      then record (tell led_off m) {
        is_on = false;
        last_toggle_ms = now;
        blink_count = m.blink_count + 1;
      }
      else m
    else if leb 3 m.blink_count
    then if leb 1000 since then record m { blink_count = 0; last_toggle_ms = now } else m
    else if leb 100 since
    then record (tell led_on m) { is_on = true; last_toggle_ms = now }
    else m

-- `handleConnecting` and `handleError`, with their interval.
unfoldable pub toggle_every : ℕ → ℕ → DeviceStateManager → DeviceStateManager
toggle_every interval now m =
    if ltb (sub32 now m.last_toggle_ms) interval
    then m
    else record (tell led_toggle m) { last_toggle_ms = now }

unfoldable pub handle_idle : DeviceStateManager → DeviceStateManager
handle_idle m = if m.is_on then m else record (tell led_on m) { is_on = true }

-- The state of the network, where no provisioning runs.
abbrev pub noted : WifiState → DeviceState → DeviceState
noted connecting s = connecting_to_network
noted connected s = is_connected
noted _ s = s

unfoldable pub show_network : WifiState → ℕ → DeviceStateManager → DeviceStateManager
unfolding toggle_every handle_idle
show_network connecting now m = toggle_every 500 now m
show_network connected now m = handle_idle m
show_network _ now m = toggle_every 100 now m

unfoldable pub handle : Pass → DeviceStateManager → DeviceStateManager
unfolding handle_provisioning show_network
handle p m =
    let noticed = record m {
      state = if p.provisioning then in_provisioning else noted p.wifi m.state;
    } in
    if m.has_led
    then if p.provisioning
      then handle_provisioning p.now noticed
      else show_network p.wifi p.now noticed
    else noticed

-- `has_memory` says whether `malloc` gives the memory of the LED's adapter.
unfoldable pub configure : Bool → DeviceStateManager → DeviceStateManager × Bool
configure has_memory m =
    if m.has_led
    then (m, false)
    else if has_memory
    then (record m { has_led = true }, true)
    else (m, false)
