-- ===== src/Settings/Manager/Url.antt =====
-- The helpers of src/Core/Settings/SettingsManager.cpp: the URL of the settings, the manifest's
-- placeholder, and the credentials of the build.
pub mod Manifest
use io_tsmart_sys_core.Base.{
  ℕ, zero, suc, ◌+◌, ◌-◌, Bool, true, false, not, ◌&&◌, ◌||◌, List, [], ◌∷◌, ◌++◌, Option, none,
  some, Text, codes, text_eq, is_empty, length, take, drop, leb, ◌==◌, if◌then◌else◌,
}
use io_tsmart_sys_core.Settings.Mqtt.{find, replace_at}
use io_tsmart_sys_core.Settings.Wifi.{wifi_is_valid, sync_selected_legacy_fields}
use io_tsmart_sys_core.Settings.Config.{Settings}

-- What the build compiles in: the endpoint (empty for a null pointer), the environment's name, and
-- the credentials that the build adds, each with both strings present.
pub record Build : Type 0 where
  pub endpoint : Text
  pub env_id : Text
  pub wifi_credentials : Option (Text × Text)
  pub wifi_macros : Option (Text × Text)

unfoldable pub ends_with : Text → Text → Bool
ends_with value suffix =
    leb (length suffix) (length value) && text_eq (drop (length value - length suffix) value) suffix

-- From the end of the text, as `pop_back` goes.
unfoldable pub trim_trailing_slashes : Text → Text
trim_trailing_slashes [] = []
trim_trailing_slashes (c ∷ cs) =
    let rest = trim_trailing_slashes cs in if is_empty rest && c == b'/' then [] else c ∷ rest

abbrev pub default_settings_query : Text
default_settings_query =
    codes "prefix_auto_format_properties_json=mqtt,firmware,wifi&use_key_value=no"

abbrev contains : Text → Text → Bool
contains p s = elim (find p s) [ none ↦ false | some _ ↦ true ]

unfoldable pub append_default_settings_query_if_needed : Text → Text
append_default_settings_query_if_needed url =
    if not (contains (codes "?") url) && ends_with url (codes "/settings")
    then url ++ (codes "?" ++ default_settings_query)
    else url

abbrev starts_with_slash : Text → Bool
starts_with_slash [] = false
starts_with_slash (c ∷ cs) = c == b'/'

abbrev join_endpoint : Build → Text → Text
join_endpoint b url =
    if is_empty b.endpoint
    then url
    else append_default_settings_query_if_needed (
        if not (starts_with_slash b.endpoint)
        then url ++ (codes "/" ++ b.endpoint)
        else url ++ b.endpoint)

unfoldable pub build_settings_url : Build → Settings → Text
unfolding trim_trailing_slashes append_default_settings_query_if_needed ends_with is_empty
build_settings_url b s =
    if is_empty s.api.url
    then []
    else if contains (codes ":device_id") s.api.url || ends_with s.api.url (codes "/settings")
    then append_default_settings_query_if_needed s.api.url
    else join_endpoint b (trim_trailing_slashes s.api.url)

-- `manifest.find(placeholder, pos)`
unfoldable pub find_from : Text → ℕ → Text → Option ℕ
find_from p pos s = elim (find p (drop pos s)) [ none ↦ none | some i ↦ some (pos + i) ]

-- The loop over the placeholders; `none` means that the fuel ran out.
unfoldable pub resolve_loop : ℕ → Text → ℕ → Text → Option Text
resolve_loop zero env pos manifest = none
resolve_loop (suc f) env pos manifest = elim (find_from (codes "{env_id}") pos manifest) [
  | none ↦ some manifest
  | some i ↦ resolve_loop f env (i + length env) (replace_at i 8 env manifest)
]

-- Each round leaves less text behind `pos`, so a round for each byte is enough.
unfoldable pub resolve_firmware_manifest : Build → Text → Option Text
unfolding resolve_loop is_empty
resolve_firmware_manifest b manifest =
    if is_empty b.env_id
    then some manifest
    else resolve_loop (suc (length manifest)) b.env_id 0 manifest

abbrev use_credentials : Text × Text → Settings → Settings
use_credentials (ssid, password) s = record s {
  in_config_mode = false;
  wifi = record w {
    ssid = ssid;
    password = password;
    primary = record { ssid = ssid; password = password };
    profile = codes "primary";
  };
}
  where
    open s use {wifi as w}

unfoldable pub apply_compiled_wifi_override : Build → Settings → Settings
apply_compiled_wifi_override b s =
    if wifi_is_valid s.wifi
    then record s { wifi = sync_selected_legacy_fields s.wifi }
    else elim b.wifi_credentials [
      | some c ↦ use_credentials c s
      | none ↦ elim b.wifi_macros [ some c ↦ use_credentials c s | none ↦ s ]
    ]

abbrev fill_device_id : Option Text → Text → Text
fill_device_id none url = url
fill_device_id (some id) url = elim (find (codes ":device_id") url) [
  | none ↦ url
  | some i ↦ replace_at i 10 id url
]

-- The URL that a synchronisation requests.
unfoldable pub sync_url : Build → Settings → Text
unfolding build_settings_url
sync_url b s = fill_device_id s.client_id (build_settings_url b s)
