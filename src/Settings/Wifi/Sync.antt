-- ===== src/Settings/Wifi/Sync.antt =====
-- `syncSelectedLegacyFields` and `hasChanged` of src/Contracts/Settings/WifiConfig.h.
use io_tsmart_sys_core.Base.{false, ◌≡◌, arith, text_eq, text_eq_iff, ◌↔◌, is_empty}
use io_tsmart_sys_core.Settings.Wifi.{
  WifiConfig, profile_is_valid, sync_selected_legacy_fields, wifi_has_changed,
}

pub wifi_has_changed_iff : (w v : WifiConfig) → (wifi_has_changed w v ≡ false) ↔ (w ≡ v)
unfolding wifi_has_changed
wifi_has_changed_iff w v = ground (
  arith,
  text_eq_iff w.ssid v.ssid,
  text_eq_iff w.password v.password,
  text_eq_iff w.primary.ssid v.primary.ssid,
  text_eq_iff w.primary.password v.primary.password,
  text_eq_iff w.secondary.ssid v.secondary.ssid,
  text_eq_iff w.secondary.password v.secondary.password,
  text_eq_iff w.tertiary.ssid v.tertiary.ssid,
  text_eq_iff w.tertiary.password v.tertiary.password,
  text_eq_iff w.profile v.profile,
)

-- Mirroring twice is mirroring once.
pub sync-sync :
    (w : WifiConfig)
    → sync_selected_legacy_fields (sync_selected_legacy_fields w) ≡ sync_selected_legacy_fields w
unfolding sync_selected_legacy_fields text_eq profile_is_valid is_empty
sync-sync w = ground arith
