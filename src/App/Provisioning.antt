-- ===== src/App/Provisioning.antt =====
-- `ProvisioningController::completeProvisioning` of src/App/Managers/ProvisioningController.cpp, and
-- the configuration of src/Core/Provisioning/DeviceConfig.h.
pub mod Reboot
mod Tests
use io_tsmart_sys_core.Base.{
  ℕ, ◌+◌, not, Bool, true, false, Option, none, some, Text, codes, text_eq, if◌then◌else◌,
}
use io_tsmart_sys_core.Wifi.Select.{text_or_empty}
use io_tsmart_sys_core.Settings.Wifi.{WifiConfig}
use io_tsmart_sys_core.Settings.Config.{Settings}
use io_tsmart_sys_core.Settings.Manager.{Manager}
use io_tsmart_sys_core.Settings.Manager.Loop.{default_settings, save}

pub record DeviceConfig : Type 0 where
  pub wifi_ssid : Option Text
  pub wifi_password : Option Text
  pub wifi_profile : Option Text
  pub device_api_url : Option Text
  pub device_api_key : Option Text
  pub basic_auth : Option Text

-- The credentials are copied to the profile of that name, and to the primary one for any other name.
unfoldable pub with_profile : Text → Text → Text → WifiConfig → WifiConfig
with_profile ssid password profile w =
    if text_eq profile (codes "secondary")
    then record w { profile = profile; secondary = record { ssid = ssid; password = password } }
    else if text_eq profile (codes "tertiary")
    then record w { profile = profile; tertiary = record { ssid = ssid; password = password } }
    else record w {
      profile = codes "primary";
      primary = record { ssid = ssid; password = password };
    }

abbrev profile_or_primary : Option Text → Text
profile_or_primary none = codes "primary"
profile_or_primary (some p) = p

-- The settings that are saved. The source leaves `clientId` uninitialised, which is `none` here: the
-- member is neither merged by `applyChanges` nor stored.
unfoldable pub new_settings : DeviceConfig → Settings
new_settings cfg =
    let ssid = text_or_empty cfg.wifi_ssid in
    let password = text_or_empty cfg.wifi_password in
    record default_settings {
      in_config_mode = false;
      wifi =
          with_profile ssid password (profile_or_primary cfg.wifi_profile)
            (record w { ssid = ssid; password = password });
      api = record {
        url = text_or_empty cfg.device_api_url;
        key = text_or_empty cfg.device_api_key;
        basic_auth = text_or_empty cfg.basic_auth;
      };
    }
  where
    open default_settings use {wifi as w}

-- Over the state that the two functions change; `none` is an empty function.
module _ {S : Type 0} (saver : Option (Settings → S → S × Bool))
    (schedule_restart : Option (S → S)) where
  abbrev saved : DeviceConfig → S → S × Bool
  saved cfg s = elim saver [ none ↦ (s, false) | some f ↦ f (new_settings cfg) s ]

  abbrev scheduled : S → S
  scheduled s = elim schedule_restart [ none ↦ s | some f ↦ f s ]

  unfoldable pub complete_provisioning : DeviceConfig → S → S × Bool
  complete_provisioning cfg s =
      let done = saved cfg s in if not done.1 then (done.0, false) else (scheduled done.0, true)

-- What the controller hands over: `save` of the settings manager, and a restart that is counted.
pub record Device : Type 0 where
  pub manager : Manager
  pub restarts : ℕ

abbrev pub save_by_manager : ℕ → Settings → Device → Device × Bool
save_by_manager save_err settings d =
    let done = save save_err settings d.manager in (record d { manager = done.0 }, done.1)

abbrev pub count_restart : Device → Device
count_restart d = record d { restarts = d.restarts + 1 }

-- `save_err` is what the storage answers.
unfoldable pub provision : ℕ → DeviceConfig → Device → Device × Bool
unfolding complete_provisioning
provision save_err cfg d =
    complete_provisioning (some (save_by_manager save_err)) (some count_restart) cfg d
