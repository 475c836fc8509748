-- ===== src/Settings/Wifi.antt =====
-- src/Contracts/Settings/WifiConfig.h: the stored Wi-Fi profiles and the legacy credentials.
pub mod Sync
use io_tsmart_sys_core.Base.{Bool, not, ◌&&◌, ◌||◌, Text, codes, text_eq, is_empty, if◌then◌else◌}

pub record WifiProfile : Type 0 where
  pub ssid : Text
  pub password : Text

pub record WifiConfig : Type 0 where
  pub ssid : Text
  pub password : Text
  pub primary : WifiProfile
  pub secondary : WifiProfile
  pub tertiary : WifiProfile
  pub profile : Text

-- `WifiProfileConfig::isValid`
unfoldable pub profile_is_valid : WifiProfile → Bool
unfolding is_empty
profile_is_valid p = not (is_empty p.ssid) && not (is_empty p.password)

unfoldable pub profile_has_changed : WifiProfile → WifiProfile → Bool
profile_has_changed p q = not (text_eq p.ssid q.ssid) || not (text_eq p.password q.password)

unfoldable pub selected : WifiConfig → WifiProfile
selected w =
    if text_eq w.profile (codes "tertiary") && profile_is_valid w.tertiary
    then w.tertiary
    else if text_eq w.profile (codes "secondary") && profile_is_valid w.secondary
    then w.secondary
    else w.primary

unfoldable pub has_any_profile : WifiConfig → Bool
has_any_profile w =
    profile_is_valid w.primary || (profile_is_valid w.secondary || profile_is_valid w.tertiary)

-- `WifiConfig::isValid`
unfoldable pub wifi_is_valid : WifiConfig → Bool
unfolding has_any_profile is_empty
wifi_is_valid w = has_any_profile w || (not (is_empty w.ssid) && not (is_empty w.password))

-- The legacy credentials become the primary profile.
abbrev adopt_legacy : WifiConfig → WifiConfig
adopt_legacy w =
    if not (is_empty w.ssid) || not (is_empty w.password)
    then record w {
      primary = record { ssid = w.ssid; password = w.password };
      profile = codes "primary";
    }
    else w

-- The selected profile is mirrored in the legacy credentials.
abbrev mirror : WifiProfile → WifiConfig → WifiConfig
mirror active w = record w {
  ssid = active.ssid;
  password = active.password;
  profile = if is_empty w.profile then codes "primary" else w.profile;
}

unfoldable pub sync_selected_legacy_fields : WifiConfig → WifiConfig
unfolding has_any_profile selected
sync_selected_legacy_fields w =
    if not (has_any_profile w) then adopt_legacy w else mirror (selected w) w

unfoldable pub wifi_has_changed : WifiConfig → WifiConfig → Bool
unfolding profile_has_changed
wifi_has_changed w v =
    not (text_eq w.ssid v.ssid)
    || (not (text_eq w.password v.password)
        || (profile_has_changed w.primary v.primary
            || (profile_has_changed w.secondary v.secondary
                || (profile_has_changed w.tertiary v.tertiary
                    || not (text_eq w.profile v.profile)))))
