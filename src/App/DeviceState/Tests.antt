-- ===== src/App/DeviceState/Tests.antt =====
-- A connection that is lost and comes back, in src/App/Managers/DeviceStateManager.cpp.
use io_tsmart_sys_core.Base.{ℕ, true, false, ◌≡◌, refl, List, [], ◌∷◌}
use io_tsmart_sys_core.Wifi.{WifiState, connecting, connected}
use io_tsmart_sys_core.App.DeviceState.{
  DeviceStateManager, is_connected, Pass, led_on, handle, show_network, toggle_every, handle_idle,
}
use io_tsmart_sys_core.App.DeviceState.Output.{apply_command, is_lit}
use io_tsmart_sys_core.App.DeviceState.Toggles.{run, offline_passes}
use io_tsmart_sys_core.App.DeviceState.Light.{IsMisled, lit_only_toggles, lit_by, level_after}

abbrev lit : DeviceStateManager
lit = record {
  has_led = true;
  last_toggle_ms = 1000;
  blink_count = 0;
  state = is_connected;
  is_on = true;
  sent = led_on ∷ [];
}

abbrev pass : WifiState → ℕ → Pass
pass w now = record { now = now; provisioning = false; wifi = w }

abbrev lost : List Pass
lost = pass connecting 2000 ∷ pass connecting 2100 ∷ []

abbrev back : List Pass
back = pass connected 2200 ∷ pass connected 9000 ∷ []

lit_only_toggles_example : IsMisled (offline_passes lost) lit (run back (run lost lit))
lit_only_toggles_example =
    lit_only_toggles lost back lit (refl, (refl, tt)) (refl, refl, (refl, refl, tt)) refl

-- The device is connected again, and the LED, which was lit, is dark.
left_dark :
    ((run back (run lost lit)).state ≡ is_connected)
    × (lit_by true false lit ≡ true)
    × (lit_by true false (run back (run lost lit)) ≡ false)
unfolding run handle show_network toggle_every handle_idle level_after apply_command is_lit
left_dark = (refl, refl, refl)
