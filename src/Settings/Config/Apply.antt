-- ===== src/Settings/Config/Apply.antt =====
-- What `applyChanges` of src/Contracts/Settings/Settings.h takes from an update.
use io_tsmart_sys_core.Base.{
  Bool, true, false, not, ◌&&◌, ◌||◌, ◌↔◌, ◌≡◌, refl, sym, ap, ◌∙◌, arith, Bool-cases, inl, inr,
  text_eq_iff, bool_eq, ◌==◌, if◌then◌else◌,
}
use io_tsmart_sys_core.Base.Int.{int_eq}
use io_tsmart_sys_core.Settings.Mqtt.{settings_is_valid, settings_has_changed}
use io_tsmart_sys_core.Settings.Mqtt.Topic.{settings_has_changed_iff, bool_eq_iff, int_eq_iff}
use io_tsmart_sys_core.Settings.Wifi.{wifi_is_valid, wifi_has_changed}
use io_tsmart_sys_core.Settings.Wifi.Sync.{wifi_has_changed_iff}
use io_tsmart_sys_core.Settings.Config.{
  ApiConfig, FirmwareConfig, Settings, api_is_valid, api_has_changed, firmware_is_valid,
  firmware_has_changed, apply_mode, apply_registered, apply_log_level, apply_interval, apply_api,
  apply_firmware, apply_mqtt, apply_wifi, apply_changes,
}

api_has_changed_iff : (a b : ApiConfig) → (api_has_changed a b ≡ false) ↔ (a ≡ b)
unfolding api_has_changed
api_has_changed_iff a b =
    ground (
      arith,
      text_eq_iff a.key b.key,
      text_eq_iff a.basic_auth b.basic_auth,
      text_eq_iff a.url b.url,
    )

firmware_has_changed_iff : (f g : FirmwareConfig) → (firmware_has_changed f g ≡ false) ↔ (f ≡ g)
unfolding firmware_has_changed
firmware_has_changed_iff f g = ground (
  arith,
  text_eq_iff f.url g.url,
  text_eq_iff f.manifest g.manifest,
  bool_eq_iff f.verify_sha256 g.verify_sha256,
  text_eq_iff f.update g.update,
)

-- Does the update's section replace the own one? Its validity, and a difference.
abbrev takes_api : Settings → Settings → Bool
takes_api s other = api_has_changed s.api other.api && api_is_valid other.api

abbrev takes_firmware : Settings → Settings → Bool
takes_firmware s other =
    firmware_has_changed s.firmware other.firmware && firmware_is_valid other.firmware

abbrev takes_mqtt : Settings → Settings → Bool
takes_mqtt s other = settings_has_changed s.mqtt other.mqtt && settings_is_valid other.mqtt

abbrev takes_wifi : Settings → Settings → Bool
takes_wifi s other = wifi_has_changed s.wifi other.wifi && wifi_is_valid other.wifi

abbrev takes_general : Settings → Settings → Bool
takes_general s other =
    not (bool_eq s.in_config_mode other.in_config_mode)
    || ((not s.device_registered && other.device_registered)
        || (not (s.log_level == other.log_level)
            || not (int_eq s.collect_interval_metrics other.collect_interval_metrics)))

abbrev general : Settings → Settings → Settings
general s other = record s {
  in_config_mode = other.in_config_mode;
  device_registered = s.device_registered || other.device_registered;
  log_level = other.log_level;
  collect_interval_metrics = other.collect_interval_metrics;
  is_changed = s.is_changed || takes_general s other;
}

module _ (s other : Settings) where
  general_lem :
      apply_interval other (apply_log_level other (apply_registered other (apply_mode other s)))
      ≡ general s other
  unfolding apply_interval apply_log_level apply_registered apply_mode
  general_lem = ground (
    arith,
    bool_eq_iff s.in_config_mode other.in_config_mode,
    int_eq_iff s.collect_interval_metrics other.collect_interval_metrics,
  )

  api_lem : apply_api other s ≡ record s {
    api = if api_is_valid other.api then other.api else s.api;
    is_changed = s.is_changed || takes_api s other;
  }
  unfolding apply_api
  api_lem = ground (arith, api_has_changed_iff s.api other.api)

  firmware_lem : apply_firmware other s ≡ record s {
    firmware = if firmware_is_valid other.firmware then other.firmware else s.firmware;
    is_changed = s.is_changed || takes_firmware s other;
  }
  unfolding apply_firmware
  firmware_lem = ground (arith, firmware_has_changed_iff s.firmware other.firmware)

  mqtt_lem : apply_mqtt other s ≡ record s {
    mqtt = if settings_is_valid other.mqtt then other.mqtt else s.mqtt;
    is_changed = s.is_changed || takes_mqtt s other;
  }
  unfolding apply_mqtt
  mqtt_lem = ground (arith, settings_has_changed_iff s.mqtt other.mqtt)

  wifi_lem : apply_wifi other s ≡ record s {
    wifi = if wifi_is_valid other.wifi then other.wifi else s.wifi;
    is_changed = s.is_changed || takes_wifi s other;
  }
  unfolding apply_wifi
  wifi_lem = ground (arith, wifi_has_changed_iff s.wifi other.wifi)

-- The merge as one record: of each section the update's where that is valid.
abbrev merged : Settings → Settings → Settings
merged s other = record s {
  in_config_mode = other.in_config_mode;
  device_registered = s.device_registered || other.device_registered;
  log_level = other.log_level;
  collect_interval_metrics = other.collect_interval_metrics;
  api = if api_is_valid other.api then other.api else s.api;
  firmware = if firmware_is_valid other.firmware then other.firmware else s.firmware;
  mqtt = if settings_is_valid other.mqtt then other.mqtt else s.mqtt;
  wifi = if wifi_is_valid other.wifi then other.wifi else s.wifi;
  is_changed =
      (((((s.is_changed || takes_general s other) || takes_api s other) || takes_firmware s other)
          || takes_mqtt s other)
        || takes_wifi s other);
}

merged_lem : (s other : Settings) → apply_changes s other ≡ merged s other
unfolding apply_changes
merged_lem s other = rw (general_lem s other, api_lem, firmware_lem, mqtt_lem, wifi_lem) refl

-- What a merge of `other` into `s` is to be. The settings are unmarked only if they were so and
-- nothing changes.
pub record IsMerge (s other r : Settings) : Type 0 where
  pub mode : r.in_config_mode ≡ other.in_config_mode
  pub registered : r.device_registered ≡ (s.device_registered || other.device_registered)
  pub level : r.log_level ≡ other.log_level
  pub interval : r.collect_interval_metrics ≡ other.collect_interval_metrics
  pub client_kept : r.client_id ≡ s.client_id
  pub api : r.api ≡ (if api_is_valid other.api then other.api else s.api)
  pub firmware :
      r.firmware ≡ (if firmware_is_valid other.firmware then other.firmware else s.firmware)
  pub mqtt : r.mqtt ≡ (if settings_is_valid other.mqtt then other.mqtt else s.mqtt)
  pub wifi : r.wifi ≡ (if wifi_is_valid other.wifi then other.wifi else s.wifi)
  pub marked : (r.is_changed ≡ false) ↔ ((s.is_changed ≡ false) × (r ≡ s))

unmarked_same : (s other : Settings) → (merged s other).is_changed ≡ false → merged s other ≡ s
unmarked_same s other h = ground (
  arith,
  bool_eq_iff s.in_config_mode other.in_config_mode,
  int_eq_iff s.collect_interval_metrics other.collect_interval_metrics,
  api_has_changed_iff s.api other.api,
  firmware_has_changed_iff s.firmware other.firmware,
  settings_has_changed_iff s.mqtt other.mqtt,
  wifi_has_changed_iff s.wifi other.wifi,
)

same_unmarked : {s r : Settings} → s.is_changed ≡ false → r ≡ s → r.is_changed ≡ false
same_unmarked h e = rw e h

-- `applyChanges` takes the mode, the log level and the interval of the update, and of the other
-- sections those that are valid there; the registration and the client are never taken back; and the
-- change mark is clear exactly if it was and the settings are the same as before.
pub apply_changes-IsMerge : (s other : Settings) → IsMerge s other (apply_changes s other)
apply_changes-IsMerge s other = rw merged_lem (record {
  mode = refl;
  registered = refl;
  level = refl;
  interval = refl;
  client_kept = refl;
  api = refl;
  firmware = refl;
  mqtt = refl;
  wifi = refl;
  marked = (λ h. (ground arith, unmarked_same s other h), λ h. same_unmarked h.0 h.1);
})

marked_again : (s other : Settings) → s.is_changed ≡ true → (merged s other).is_changed ≡ true
marked_again s other h = ground arith

merged_twice :
    (s other r : Settings) → merged s other ≡ r → r.is_changed ≡ true → merged r other ≡ r
merged_twice s other r e h = ground (arith, marked_again r other h)

-- Merging an update a second time changes nothing.
pub apply_changes_twice :
    (s other : Settings) → apply_changes (apply_changes s other) other ≡ apply_changes s other
apply_changes_twice s other = elim (Bool-cases (apply_changes s other).is_changed) [
  | inl marked ↦
      merged_lem (apply_changes s other) other
      ∙ merged_twice s other _ (sym (merged_lem s other)) marked
  | inr clear ↦ ap (λ r. apply_changes r other) ((apply_changes-IsMerge s other).marked.0 clear).1
]
