-- ===== src/App/Provisioning/Tests.antt =====
-- A provisioning of src/App/Managers/ProvisioningController.cpp, and the boot after it.
use io_tsmart_sys_core.Base.{◌==◌, ◌≡◌, refl, [], some, none, codes}
use io_tsmart_sys_core.Base.Int.{negsuc}
use io_tsmart_sys_core.Settings.Wifi.{profile_is_valid}
use io_tsmart_sys_core.Settings.Config.{api_is_valid}
use io_tsmart_sys_core.Settings.Manager.{result_ok}
use io_tsmart_sys_core.Settings.Manager.Loop.{new_manager}
use io_tsmart_sys_core.Wifi.{new_wifi}
use io_tsmart_sys_core.Wifi.Loop.{Radio}
use io_tsmart_sys_core.App.Bootstrap.{Boot, wifi_path, run}
use io_tsmart_sys_core.App.Bootstrap.Join.{IsJoining}
use io_tsmart_sys_core.App.Provisioning.{false, DeviceConfig, Device, new_settings, provision}
use io_tsmart_sys_core.App.Provisioning.Reboot.{
  IsOutcome, profile_of, provision-IsOutcome, provisioned_device_joins,
}

abbrev radio : Radio
radio = record {
  now = 10;
  later = 20;
  after_scan = 3000;
  random = 7;
  link_up = false;
  ssid = [];
  mac_address = codes "m";
  local_ip = [];
  rssi_text = [];
  current = record { bssid = none; rssi = negsuc 79 };
  scan = [];
  time_is_valid = false;
}

abbrev config : DeviceConfig
config = record {
  wifi_ssid = some (codes "s");
  wifi_password = some (codes "p");
  wifi_profile = some (codes "tertiary");
  device_api_url = some (codes "u");
  device_api_key = some (codes "k");
  basic_auth = some (codes "b");
}

abbrev device : Device
device = record { manager = new_manager; restarts = 0 }

abbrev boot : Boot
boot = record { manager = new_manager; wifi = new_wifi }

provision-IsOutcome_example : IsOutcome (18 == result_ok) config device (provision 18 config device)
provision-IsOutcome_example = provision-IsOutcome 18 config device

provisioned_device_joins_example :
    ((run [] radio result_ok (new_settings config) boot).1 ≡ wifi_path)
    × IsJoining
        (profile_of (codes "s") (codes "p"))
        new_wifi.radio
        (run [] radio result_ok (new_settings config) boot).0.wifi
unfolding profile_is_valid api_is_valid
provisioned_device_joins_example = provisioned_device_joins [] radio config boot refl refl refl refl
