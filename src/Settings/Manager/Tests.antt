-- ===== src/Settings/Manager/Tests.antt =====
-- Runs of src/Core/Settings/SettingsManager.cpp on concrete settings, and the theorems there.
use io_tsmart_sys_core.Base.{
  if◌then◌else◌, ◌⊎◌, ◌+◌, ℕ, ◌≡◌, refl, inr, true, false, List, [], ◌∷◌, none, some, Text, codes,
  length, arith, text_eq, is_empty,
}
use io_tsmart_sys_core.Base.Int.{pos}
use io_tsmart_sys_core.SettingsGate.{set_level, syncing}
use io_tsmart_sys_core.Settings.Mqtt.{find, starts_with}
use io_tsmart_sys_core.Settings.Config.{Settings, apply_changes}
use io_tsmart_sys_core.Settings.Config.Apply.{IsMerge, apply_changes-IsMerge}
use io_tsmart_sys_core.Settings.Manager.{
  Pending, result_ok, is_success, apply_pending_update, apply_failed, schedule_api_retry_backoff,
}
use io_tsmart_sys_core.Settings.Manager.Url.{Build, resolve_firmware_manifest, sync_url}
use io_tsmart_sys_core.Settings.Manager.Url.Manifest.{replaced, resolve_firmware_manifest_ends}
use io_tsmart_sys_core.Settings.Manager.Loop.{
  default_settings, new_manager, FetchResult, Env, init, handle, on_fetch_completed, sync_from_api,
  refresh_from_api_async,
}
use io_tsmart_sys_core.Settings.Manager.Calls.{Call, inited, fetched, handled, step, run}
use io_tsmart_sys_core.Settings.Manager.Calls.Latched.{synced_once, refreshes}
use io_tsmart_sys_core.Settings.Manager.Calls.Current.{available_has_current}
use io_tsmart_sys_core.Settings.Manager.Applied.{
  IsKept, IsApplied, failed_update-IsKept, good_update-IsApplied,
}

abbrev build : Build
build = record {
  endpoint = codes "/:device_id/settings";
  env_id = codes "esp32";
  wifi_credentials = none;
  wifi_macros = none;
}

abbrev stored : Settings
stored = record default_settings {
  client_id = some (codes "d1");
  api = record { url = codes "https://a/"; key = codes "k"; basic_auth = codes "b" };
}

abbrev update : Settings
update = record default_settings {
  log_level = 3;
  wifi = record w { primary = record { ssid = codes "home"; password = codes "pw" } };
}
  where
    open default_settings use {wifi as w}

abbrev parse : Text → ℕ × Settings
parse body = (result_ok, update)

abbrev online : Env
online = record {
  now = 1000;
  later = 1000;
  network_ready = true;
  network_still_ready = true;
  fetch_running = false;
  start_err = result_ok;
  save_err = result_ok;
}

abbrev later_online : Env
later_online = record online { now = 100000 }

abbrev unavailable : FetchResult
unavailable = record { err = result_ok; http_status = pos 503; cancelled = false; body = [] }

abbrev failing_calls : List Call
failing_calls =
    inited result_ok stored
    ∷ handled online
    ∷ fetched unavailable
    ∷ handled later_online
    ∷ handled later_online
    ∷ []

-- The first pass requests the settings.
url_of_stored :
    sync_url build stored
    ≡ codes
        "https://a/d1/settings?prefix_auto_format_properties_json=mqtt,firmware,wifi&use_key_value=no"
unfolding sync_url find starts_with text_eq
url_of_stored = refl

-- The fetch fails, and two passes follow after the time of the retry.
abbrev first_calls : List Call
first_calls = inited result_ok stored ∷ handled online ∷ []

abbrev next_calls : List Call
next_calls = fetched unavailable ∷ handled later_online ∷ handled later_online ∷ []

synced_once_example :
    (length (run build parse first_calls new_manager).fetches ≡ 0)
    ⊎ ((length (run build parse first_calls new_manager).fetches ≡ 1)
        × ((run build parse first_calls new_manager).gate.level ≡ syncing)
        × ((run build parse next_calls (run build parse first_calls new_manager)).gate.level
            ≡ syncing)
        × (length (run build parse next_calls (run build parse first_calls new_manager)).fetches
            ≡ length (run build parse first_calls new_manager).fetches + 0))
unfolding refreshes
synced_once_example = synced_once build parse first_calls next_calls

-- The second case is met: the failed fetch is not tried again.
fetched_once : length (run build parse failing_calls new_manager).fetches ≡ 1
unfolding run step init handle on_fetch_completed sync_from_api refresh_from_api_async set_level
    apply_pending_update apply_failed is_success schedule_api_retry_backoff
fetched_once = refl

available_has_current_example : (run build parse failing_calls new_manager).has_current ≡ true
unfolding run step init handle on_fetch_completed sync_from_api refresh_from_api_async set_level
    apply_pending_update apply_failed is_success schedule_api_retry_backoff
available_has_current_example = available_has_current build parse failing_calls tt refl

resolve_firmware_manifest_example :
    resolve_firmware_manifest build (codes "/{env_id}/m.json")
    ≡ some (
        if is_empty (codes "esp32")
        then codes "/{env_id}/m.json"
        else replaced (codes "esp32") 0 (codes "/{env_id}/m.json"))
resolve_firmware_manifest_example = resolve_firmware_manifest_ends build (codes "/{env_id}/m.json")

apply_changes-IsMerge_example : IsMerge stored update (apply_changes stored update)
apply_changes-IsMerge_example = apply_changes-IsMerge stored update

abbrev failure : Pending
failure = record {
  cancelled = false;
  fetch_err = result_ok;
  http_status = pos 503;
  parse_err = result_ok;
  parsed = none;
}

failed_update-IsKept_example :
    IsKept 1000 new_manager (apply_pending_update 1000 0 failure new_manager)
failed_update-IsKept_example =
    failed_update-IsKept 1000 0 failure new_manager (inr (inr (inr refl))) (omega arith)

abbrev success : Pending
success = record failure { http_status = pos 200; parsed = some update }

good_update-IsApplied_example :
    IsApplied update new_manager (apply_pending_update 1000 0 success new_manager)
unfolding is_success
good_update-IsApplied_example =
    good_update-IsApplied 1000 0 success update new_manager refl refl refl refl
