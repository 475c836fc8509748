-- ===== src/App/Bootstrap/Tests.antt =====
-- A boot of src/App/Managers/ConnectivityBootstrap.cpp.
use io_tsmart_sys_core.Base.{false, ◌≡◌, refl, arith, [], none, codes, text_eq}
use io_tsmart_sys_core.Base.Int.{negsuc}
use io_tsmart_sys_core.Settings.Wifi.{profile_is_valid, selected}
use io_tsmart_sys_core.Settings.Config.{Settings, api_is_valid}
use io_tsmart_sys_core.Settings.Manager.{result_ok}
use io_tsmart_sys_core.Settings.Manager.Loop.{default_settings, new_manager}
use io_tsmart_sys_core.Wifi.{new_wifi}
use io_tsmart_sys_core.Wifi.Loop.{Radio}
use io_tsmart_sys_core.App.Bootstrap.{Boot, wifi_path, run}
use io_tsmart_sys_core.App.Bootstrap.Join.{IsJoining, boot_joins_selected}

abbrev radio : Radio
radio = record {
  now = 10;
  later = 20;
  after_scan = 3000;
  random = 7;
  link_up = false;
  ssid = [];
  mac_address = codes "m";
  local_ip = [];
  rssi_text = [];
  current = record { bssid = none; rssi = negsuc 79 };
  scan = [];
  time_is_valid = false;
}

abbrev stored : Settings
stored = record default_settings {
  wifi = record w {
    secondary = record { ssid = codes "s"; password = codes "p" };
    profile = codes "secondary";
  };
  api = record { url = codes "u"; key = codes "k"; basic_auth = codes "b" };
}
  where
    open default_settings use {wifi as w}

abbrev boot : Boot
boot = record { manager = new_manager; wifi = new_wifi }

boot_joins_selected_example :
    ((run [] radio result_ok stored boot).1 ≡ wifi_path)
    × IsJoining (selected stored.wifi) new_wifi.radio (run [] radio result_ok stored boot).0.wifi
unfolding profile_is_valid selected text_eq api_is_valid
boot_joins_selected_example =
    boot_joins_selected [] radio stored boot (ground arith) refl refl refl refl
