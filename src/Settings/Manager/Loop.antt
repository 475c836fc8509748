-- ===== src/Settings/Manager/Loop.antt =====
-- `init`, the completion of a fetch, `syncFromApi`, `handle`, `save` and `clear` of
-- src/Core/Settings/SettingsManager.cpp.
use io_tsmart_sys_core.Base.{
  ℕ, ◌+◌, ◌*◌, Bool, true, false, not, ◌&&◌, [], ◌∷◌, ◌++◌, Option, none, some, Text, codes, leb,
  ◌==◌, if◌then◌else◌, u32, sub64,
}
use io_tsmart_sys_core.Base.Int.{ℤ, pos, negsuc}
use io_tsmart_sys_core.Settings.Mqtt.{MqttConfig}
use io_tsmart_sys_core.Settings.Wifi.{WifiProfile, WifiConfig}
use io_tsmart_sys_core.Settings.Config.{Settings, apply_changes}
use io_tsmart_sys_core.SettingsGate.{Level, no_level, available, syncing, new}
use io_tsmart_sys_core.Settings.Manager.{
  idle, loaded_from_cache, fetching_from_api, ready, error, Request, Manager, result_ok,
  invalid_state, network_down, note_error, signal, fallback_level, is_success,
  schedule_api_retry_backoff, apply_pending_update,
}
use io_tsmart_sys_core.Settings.Manager.Url.{
  Build, resolve_firmware_manifest, apply_compiled_wifi_override, sync_url,
}

abbrev no_mqtt_config : MqttConfig
no_mqtt_config = record {
  host = [];
  port = pos 1883;
  user = [];
  password = [];
  protocol = [];
  ttl = pos 0;
  keep_alive_sec = 30;
  clean_session = true;
}

abbrev no_profile : WifiProfile
no_profile = record { ssid = []; password = [] }

-- `Settings{}`
abbrev pub default_settings : Settings
default_settings = record {
  in_config_mode = false;
  device_registered = false;
  collect_interval_metrics = pos 60000;
  client_id = none;
  log_level = 2;
  mqtt = record {
    primary = no_mqtt_config;
    secondary = no_mqtt_config;
    tertiary = no_mqtt_config;
    announce_topic = codes "smarthome/discovery";
    command_topic = codes "device/{device_id}/command";
    notify_topic = codes "device/state";
    profile = codes "primary";
  };
  firmware = record { url = []; manifest = []; verify_sha256 = false; update = codes "ota" };
  wifi = record {
    ssid = [];
    password = [];
    primary = no_profile;
    secondary = no_profile;
    tertiary = no_profile;
    profile = codes "primary";
  };
  api = record { url = []; key = []; basic_auth = [] };
  is_changed = false;
}

abbrev pub new_manager : Manager
new_manager = record {
  state = idle;
  has_current = false;
  current = default_settings;
  stats = record {
    cache_load_ok = 0;
    cache_load_fail = 0;
    api_fetch_ok = 0;
    api_fetch_fail = 0;
    parse_fail = 0;
    nvs_save_fail = 0;
    last_http_status = negsuc 0;
    last_err = result_ok;
  };
  has_callback = false;
  gate = new;
  pending = none;
  api_sync_failures = 0;
  next_api_sync_at_ms = 0;
  last_network_not_ready_log_at_ms = 0;
  saved = [];
  saved_wifi = [];
  fetches = [];
  updates = [];
}

-- `load_err` and `loaded` are what the storage answers.
unfoldable pub init : ℕ → Settings → Manager → Manager
init load_err loaded m =
    if load_err == result_ok
    then signal available result_ok (record m {
      current = loaded;
      has_current = true;
      stats = record s { cache_load_ok = u32 (s.cache_load_ok + 1) };
      state = loaded_from_cache;
    })
    else record m {
      stats = record s { cache_load_fail = u32 (s.cache_load_fail + 1); last_err = load_err };
      state = idle;
    }
  where
    open m use {stats as s}

-- What the fetcher hands over when it is done.
pub record FetchResult : Type 0 where
  pub err : ℕ
  pub http_status : ℤ
  pub cancelled : Bool
  pub body : Text

-- What one call of `handle` meets: the clock at its reads, the gate for the network at its two
-- reads, the fetcher and the storage.
pub record Env : Type 0 where
  pub now : ℕ
  pub later : ℕ
  pub network_ready : Bool
  pub network_still_ready : Bool
  pub fetch_running : Bool
  pub start_err : ℕ
  pub save_err : ℕ

abbrev pub or_else {ℓ} : {A : Type ℓ} → Option A → A → A
or_else none d = d
or_else (some a) d = a

module _ (b : Build) where
  -- The manifest's loop always gives a result, so `or_else` never takes the other one.
  unfoldable pub prepare_parsed : Settings → Settings
  prepare_parsed s = apply_compiled_wifi_override b (record s {
    firmware = record f { manifest = or_else (resolve_firmware_manifest b f.manifest) f.manifest };
  })
    where
      open s use {firmware as f}

  -- `parse` gives the parser's result and the settings that it filled.
  unfoldable pub on_fetch_completed : (Text → ℕ × Settings) → FetchResult → Manager → Manager
  on_fetch_completed parse res m =
      let accepted = not res.cancelled && (res.err == result_ok && is_success res.http_status) in
      let (parse_err, parsed) = parse res.body in
      record m {
        pending = some (record {
          cancelled = res.cancelled;
          fetch_err = res.err;
          http_status = res.http_status;
          parse_err = if accepted && not (parse_err == result_ok) then parse_err else result_ok;
          parsed =
              if accepted && parse_err == result_ok then some (prepare_parsed parsed) else none;
        });
      }

  abbrev pub request : Settings → Request
  request c = record {
    url = sync_url b c;
    api_key = c.api.key;
    client_id = or_else c.client_id [];
    authorization = c.api.basic_auth;
    connect_timeout_ms = 3000;
    read_timeout_ms = 6000;
    max_body_bytes = 10 * 1024;
    max_attempts = 4;
  }

  -- `refreshFromApiAsync`; `start_err` is the fetcher's answer.
  unfoldable pub refresh_from_api_async : ℕ → Request → Manager → Manager
  refresh_from_api_async start_err req m =
      let state =
        if start_err == result_ok
        then fetching_from_api
        else if m.has_current
        then ready
        else error in
      record m { state = state; fetches = m.fetches ++ req ∷ [] }

  unfoldable pub sync_from_api : Env → Manager → Manager
  sync_from_api e m =
      if not e.network_still_ready
      then schedule_api_retry_backoff e.later (signal (fallback_level m) network_down m)
      else if e.fetch_running
      then m
      else if not m.has_current
      then schedule_api_retry_backoff e.later
          (signal no_level invalid_state (signal syncing result_ok m))
      else let started =
          refresh_from_api_async e.start_err (request m.current) (signal syncing result_ok m) in
        if e.start_err == result_ok
        then started
        else schedule_api_retry_backoff e.later
            (signal (fallback_level started) e.start_err started)

  abbrev pub take_pending : Env → Manager → Manager
  take_pending e m = elim m.pending [
    | none ↦ m
    | some p ↦ apply_pending_update e.later e.save_err p (record m { pending = none })
  ]

  abbrev pub is_available : Level → Bool
  is_available available = true
  is_available _ = false

  abbrev pub poll : Env → Manager → Manager
  poll e m =
      let due = is_available m.gate.level && leb m.next_api_sync_at_ms e.now in
      if due && e.network_ready
      then sync_from_api e m
      else if due && leb 10000 (sub64 e.now m.last_network_not_ready_log_at_ms)
      then record m { last_network_not_ready_log_at_ms = e.now }
      else m

  unfoldable pub handle : Env → Manager → Manager
  handle e m = poll e (take_pending e m)

-- `save_err` is the storage's answer; the call gives whether it was `Ok`.
unfoldable pub save : ℕ → Settings → Manager → Manager × Bool
save save_err settings m =
    let stored = record m {
      current = apply_changes m.current settings;
      has_current = true;
      saved = m.saved ++ settings ∷ [];
    } in
    if not (save_err == result_ok)
    then (
      record stored {
        stats = record s { nvs_save_fail = u32 (s.nvs_save_fail + 1); last_err = save_err };
      },
      false,
    )
    else (record stored { stats = record s { last_err = result_ok } }, true)
  where
    open m use {stats as s}

unfoldable pub save_wifi_only : ℕ → WifiConfig → Manager → Manager
save_wifi_only save_err wifi m = record m {
  saved_wifi = m.saved_wifi ++ wifi ∷ [];
  stats = record s {
    nvs_save_fail =
        if not (save_err == result_ok) then u32 (s.nvs_save_fail + 1) else s.nvs_save_fail;
    last_err = if not (save_err == result_ok) then save_err else result_ok;
  };
}
  where
    open m use {stats as s}

unfoldable pub clear : ℕ → Manager → Manager
clear erase_err m =
    if not (erase_err == result_ok)
    then note_error erase_err m
    else record (note_error result_ok m) {
      current = default_settings;
      has_current = false;
      state = idle;
    }
