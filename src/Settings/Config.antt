-- ===== src/Settings/Config.antt =====
-- src/Contracts/Settings/Settings.h, with ApiConfig.h and FirmwareConfig.h: the settings of a device,
-- and how an update is merged into them.
pub mod Apply
use io_tsmart_sys_core.Base.{
  ℕ, Bool, true, false, not, ◌&&◌, ◌||◌, Option, Text, codes, text_eq, is_empty, bool_eq, ◌==◌,
  if◌then◌else◌,
}
use io_tsmart_sys_core.Base.Int.{ℤ, int_eq}
use io_tsmart_sys_core.Settings.Mqtt.{MqttSettings, settings_is_valid, settings_has_changed}
use io_tsmart_sys_core.Settings.Wifi.{WifiConfig, wifi_is_valid, wifi_has_changed}

pub record ApiConfig : Type 0 where
  pub url : Text
  pub key : Text
  pub basic_auth : Text

unfoldable pub api_is_valid : ApiConfig → Bool
unfolding is_empty
api_is_valid a = not (is_empty a.url) && (not (is_empty a.key) && not (is_empty a.basic_auth))

unfoldable pub api_has_changed : ApiConfig → ApiConfig → Bool
api_has_changed a b =
    not (text_eq a.key b.key)
    || (not (text_eq a.basic_auth b.basic_auth) || not (text_eq a.url b.url))

pub record FirmwareConfig : Type 0 where
  pub url : Text
  pub manifest : Text
  pub verify_sha256 : Bool
  pub update : Text

unfoldable pub firmware_is_valid : FirmwareConfig → Bool
unfolding is_empty
firmware_is_valid f = not (is_empty f.url)

unfoldable pub firmware_has_changed : FirmwareConfig → FirmwareConfig → Bool
firmware_has_changed f g =
    not (text_eq f.url g.url)
    || (not (text_eq f.manifest g.manifest)
        || (not (bool_eq f.verify_sha256 g.verify_sha256) || not (text_eq f.update g.update)))

-- `LogLevel`, by its number.
pub record Settings : Type 0 where
  pub in_config_mode : Bool
  pub device_registered : Bool
  pub collect_interval_metrics : ℤ
  pub client_id : Option Text
  pub log_level : ℕ
  pub mqtt : MqttSettings
  pub firmware : FirmwareConfig
  pub wifi : WifiConfig
  pub api : ApiConfig
  pub is_changed : Bool

-- The eight tests of `applyChanges`, in their order. `other` is the update.
unfoldable pub apply_mode : Settings → Settings → Settings
apply_mode other s =
    if not (bool_eq s.in_config_mode other.in_config_mode)
    then record s { in_config_mode = other.in_config_mode; is_changed = true }
    else s

unfoldable pub apply_registered : Settings → Settings → Settings
apply_registered other s =
    if not s.device_registered && other.device_registered
    then record s { device_registered = true; is_changed = true }
    else s

unfoldable pub apply_log_level : Settings → Settings → Settings
apply_log_level other s =
    if not (s.log_level == other.log_level)
    then record s { log_level = other.log_level; is_changed = true }
    else s

unfoldable pub apply_interval : Settings → Settings → Settings
apply_interval other s =
    if not (int_eq s.collect_interval_metrics other.collect_interval_metrics)
    then record s { collect_interval_metrics = other.collect_interval_metrics; is_changed = true }
    else s

unfoldable pub apply_api : Settings → Settings → Settings
apply_api other s =
    if api_has_changed s.api other.api && api_is_valid other.api
    then record s { api = other.api; is_changed = true }
    else s

unfoldable pub apply_firmware : Settings → Settings → Settings
apply_firmware other s =
    if firmware_has_changed s.firmware other.firmware && firmware_is_valid other.firmware
    then record s { firmware = other.firmware; is_changed = true }
    else s

unfoldable pub apply_mqtt : Settings → Settings → Settings
apply_mqtt other s =
    if settings_has_changed s.mqtt other.mqtt && settings_is_valid other.mqtt
    then record s { mqtt = other.mqtt; is_changed = true }
    else s

unfoldable pub apply_wifi : Settings → Settings → Settings
apply_wifi other s =
    if wifi_has_changed s.wifi other.wifi && wifi_is_valid other.wifi
    then record s { wifi = other.wifi; is_changed = true }
    else s

unfoldable pub apply_changes : Settings → Settings → Settings
apply_changes s other =
    let general =
      apply_interval other (apply_log_level other (apply_registered other (apply_mode other s))) in
    apply_wifi other (apply_mqtt other (apply_firmware other (apply_api other general)))
