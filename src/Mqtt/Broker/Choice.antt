-- ===== src/Mqtt/Broker/Choice.antt =====
-- Which broker profile an attempt goes to.
use io_tsmart_sys_core.Base.{ℕ, ◌≤◌, ◌<◌, true, ◌≡◌, ◌≢◌, ◌⊎◌, arith}
use io_tsmart_sys_core.Settings.Mqtt.{MqttSettings, config_is_valid, get_current_profile}
use io_tsmart_sys_core.Mqtt.Broker.{
  Profile, primary, secondary, tertiary, profile_eq, select_profile, resolve_profile,
  target_profile,
}

-- The attempts before three failures go to the profile that `MqttSettings::getCurrentProfile` gives.
pub target-current :
    (s : MqttSettings) (attempt : ℕ)
    → attempt < 3
    → resolve_profile s (target_profile s attempt) ≡ get_current_profile s
unfolding target_profile select_profile resolve_profile get_current_profile
target-current s attempt h = ground arith

-- From three failures on an attempt goes to another profile with a valid configuration wherever one
-- exists, and otherwise to the selected one.
pub target_falls_back :
    (s : MqttSettings) (attempt : ℕ) (other : Profile)
    → 3 ≤ attempt
    → (other ≢ select_profile s
        → config_is_valid (resolve_profile s other) ≡ true
        → (target_profile s attempt ≢ select_profile s)
          × (config_is_valid (resolve_profile s (target_profile s attempt)) ≡ true))
      × ((target_profile s attempt ≡ select_profile s)
          ⊎ (config_is_valid (resolve_profile s (target_profile s attempt)) ≡ true))
unfolding target_profile resolve_profile profile_eq
target_falls_back s attempt primary h = ground arith
target_falls_back s attempt secondary h = ground arith
target_falls_back s attempt tertiary h = ground arith
