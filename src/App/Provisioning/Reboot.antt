-- ===== src/App/Provisioning/Reboot.antt =====
-- What provisioning (src/App/Managers/ProvisioningController.cpp) leaves behind, and what the boot
-- after it (src/App/Managers/ConnectivityBootstrap.cpp) makes of it.
use io_tsmart_sys_core.Base.{
  ℕ, ◌+◌, ◌==◌, Bool, true, false, ◌≡◌, refl, [], ◌∷◌, ◌++◌, Text, codes, text_eq, text_eq-eq,
  Bool-cases, inl, inr, if◌then◌else◌,
}
use io_tsmart_sys_core.Wifi.{Compiled}
use io_tsmart_sys_core.Wifi.Select.{text_or_empty}
use io_tsmart_sys_core.Wifi.Loop.{Radio}
use io_tsmart_sys_core.Settings.Wifi.{WifiConfig, WifiProfile, profile_is_valid, selected}
use io_tsmart_sys_core.Settings.Config.{api_is_valid}
use io_tsmart_sys_core.Settings.Manager.{result_ok}
use io_tsmart_sys_core.Settings.Manager.Loop.{save}
use io_tsmart_sys_core.App.Bootstrap.{Boot, wifi_path, run}
use io_tsmart_sys_core.App.Bootstrap.Join.{IsJoining, boot_joins_selected}
use io_tsmart_sys_core.App.Provisioning.{
  DeviceConfig, with_profile, new_settings, Device, provision,
}

-- A failed save is reported and schedules no restart.
pub record IsOutcome (ok : Bool) (cfg : DeviceConfig) (d : Device) (r : Device × Bool)
    : Type 0 where
  pub answer : r.1 ≡ ok
  pub restarts : r.0.restarts ≡ (if ok then d.restarts + 1 else d.restarts)
  pub asked : r.0.manager.saved ≡ d.manager.saved ++ new_settings cfg ∷ []

-- The storage is asked once, with the settings of the configuration; provisioning succeeds exactly
-- if the storage answers `Ok`, and exactly then one restart is scheduled.
pub provision-IsOutcome :
    (err : ℕ) (cfg : DeviceConfig) (d : Device)
    → IsOutcome (err == result_ok) cfg d (provision err cfg d)
unfolding provision save
provision-IsOutcome err cfg d = elim (Bool-cases (err == result_ok)) [
  | inl ok ↦ rw ok (record { answer = refl; restarts = refl; asked = refl })
  | inr bad ↦ rw bad (record { answer = refl; restarts = refl; asked = refl })
]

abbrev pub profile_of : Text → Text → WifiProfile
profile_of ssid password = record { ssid = ssid; password = password }

not_both : (t : Text) → text_eq t (codes "secondary") ≡ true → text_eq t (codes "tertiary") ≡ false
unfolding text_eq
not_both t h = rw (text_eq-eq t (codes "secondary") h)

primary_is_primary :
    (text_eq (codes "primary") (codes "tertiary") ≡ false)
    × (text_eq (codes "primary") (codes "secondary") ≡ false)
unfolding text_eq
primary_is_primary = (refl, refl)

with_profile-selected :
    (ssid password profile : Text) (w : WifiConfig)
    → profile_is_valid (profile_of ssid password) ≡ true
    → selected (with_profile ssid password profile w) ≡ profile_of ssid password
unfolding with_profile selected
with_profile-selected ssid password profile w valid =
    elim (Bool-cases (text_eq profile (codes "secondary"))) [
      | inl second ↦ simp (second, not_both profile second, valid) refl
      | inr not_second ↦ elim (Bool-cases (text_eq profile (codes "tertiary"))) [
        | inl third ↦ simp (not_second, third, valid) refl
        | inr not_third ↦
            simp (not_second, not_third, primary_is_primary.0, primary_is_primary.1) refl
      ]
    ]

new_settings-selected :
    (cfg : DeviceConfig)
    → profile_is_valid (profile_of (text_or_empty cfg.wifi_ssid) (text_or_empty cfg.wifi_password))
      ≡ true
    → selected (new_settings cfg).wifi
      ≡ profile_of (text_or_empty cfg.wifi_ssid) (text_or_empty cfg.wifi_password)
unfolding new_settings
new_settings-selected cfg valid = with_profile-selected _ _ _ _ valid

new_settings-api :
    (cfg : DeviceConfig)
    → ((new_settings cfg).api ≡ record {
      url = text_or_empty cfg.device_api_url;
      key = text_or_empty cfg.device_api_key;
      basic_auth = text_or_empty cfg.basic_auth;
    })
      × ((new_settings cfg).in_config_mode ≡ false)
unfolding new_settings
new_settings-api cfg = (refl, refl)

-- A configuration with an SSID, a password and the three fields of the API, for whatever profile it
-- names: once it is provisioned, a boot that loads what was saved goes by Wi-Fi, and joins the
-- network of the configuration with its password first.
pub provisioned_device_joins :
    (compiled : Compiled) (r : Radio) (cfg : DeviceConfig) (b : Boot)
    → profile_is_valid (profile_of (text_or_empty cfg.wifi_ssid) (text_or_empty cfg.wifi_password))
      ≡ true
    → api_is_valid (record {
      url = text_or_empty cfg.device_api_url;
      key = text_or_empty cfg.device_api_key;
      basic_auth = text_or_empty cfg.basic_auth;
    })
      ≡ true
    → b.wifi.credential_attempt_index ≡ 0
    → b.wifi.use_prepared_target_once ≡ false
    → ((run compiled r result_ok (new_settings cfg) b).1 ≡ wifi_path)
      × IsJoining
          (profile_of (text_or_empty cfg.wifi_ssid) (text_or_empty cfg.wifi_password))
          b.wifi.radio
          (run compiled r result_ok (new_settings cfg) b).0.wifi
provisioned_device_joins compiled r cfg b valid api first fresh =
    let chosen = new_settings-selected cfg valid in
    let (section, mode) = new_settings-api cfg in
    rw chosen at (
      boot_joins_selected compiled r (new_settings cfg) b (rw chosen valid) mode (rw section api)
        first fresh)
