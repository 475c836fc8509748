-- ===== src/Settings/Manager.antt =====
-- `SettingsManager` of src/Contracts/Settings/SettingsManager.h and
-- src/Core/Settings/SettingsManager.cpp: its state, and how a fetched update is applied. What the
-- storage answers comes with a call; what is handed to the storage, the fetcher and the update
-- callback is listed in the state, oldest first.
pub mod Url
pub mod Loop
pub mod Delay
pub mod Applied
pub mod Calls
mod Tests
use io_tsmart_sys_core.Base.{
  ℕ, zero, suc, ◌+◌, ◌-◌, ◌*◌, ◌/◌, ◌%◌, Bool, true, false, not, ◌&&◌, ◌||◌, List, [], ◌∷◌, ◌++◌,
  Option, none, some, Text, ltb, leb, ◌==◌, if◌then◌else◌, u32, u64_mod,
}
use io_tsmart_sys_core.Base.Int.{ℤ, pos, negsuc, int_ltb, int_leb}
use io_tsmart_sys_core.Settings.Config.{Settings, apply_changes}
use io_tsmart_sys_core.Settings.Wifi.{WifiConfig}
use io_tsmart_sys_core.SettingsGate.{Gate, Level, no_level, available, synced, set_level}

pub data ManagerState : Type 0 where
  idle loaded_from_cache fetching_from_api ready error : ManagerState

-- The results of `StateResult` that the manager produces itself; others pass through.
abbrev pub result_ok : ℕ
result_ok = 0

abbrev pub invalid_state : ℕ
invalid_state = 2

abbrev pub network_down : ℕ
network_down = 11

pub record Stats : Type 0 where
  pub cache_load_ok : ℕ
  pub cache_load_fail : ℕ
  pub api_fetch_ok : ℕ
  pub api_fetch_fail : ℕ
  pub parse_fail : ℕ
  pub nvs_save_fail : ℕ
  pub last_http_status : ℤ
  pub last_err : ℕ

-- `PendingSettingsUpdate`: `parsed` is there where `has_parsed` is.
pub record Pending : Type 0 where
  pub cancelled : Bool
  pub fetch_err : ℕ
  pub http_status : ℤ
  pub parse_err : ℕ
  pub parsed : Option Settings

pub record Request : Type 0 where
  pub url : Text
  pub api_key : Text
  pub client_id : Text
  pub authorization : Text
  pub connect_timeout_ms : ℕ
  pub read_timeout_ms : ℕ
  pub max_body_bytes : ℕ
  pub max_attempts : ℕ

-- `pending` is `_pendingUpdate` where `_hasPending`. `has_callback` says whether a callback is set.
pub record Manager : Type 0 where
  pub state : ManagerState
  pub has_current : Bool
  pub current : Settings
  pub stats : Stats
  pub has_callback : Bool
  pub gate : Gate
  pub pending : Option Pending
  pub api_sync_failures : ℕ
  pub next_api_sync_at_ms : ℕ
  pub last_network_not_ready_log_at_ms : ℕ
  pub saved : List Settings
  pub saved_wifi : List WifiConfig
  pub fetches : List Request
  pub updates : List Settings

-- The loop over `i < _apiSyncFailures`, with the rounds left.
unfoldable pub delay_loop : ℕ → ℕ → ℕ
delay_loop zero delay = delay
delay_loop (suc n) delay =
    let more = delay_loop n (u32 (delay * 2)) in if leb (60000 / 2) delay then 60000 else more

unfoldable pub retry_delay : ℕ → ℕ
unfolding delay_loop
retry_delay failures =
    let delay = delay_loop (failures - 1) 5000 in if ltb 60000 delay then 60000 else delay

-- `now` is a uint64 of milliseconds.
unfoldable pub schedule_api_retry_backoff : ℕ → Manager → Manager
schedule_api_retry_backoff now m =
    let failures =
      if ltb m.api_sync_failures 15 then m.api_sync_failures + 1 else m.api_sync_failures in
    record m {
      api_sync_failures = failures;
      next_api_sync_at_ms = (now + retry_delay failures) % u64_mod;
    }

unfoldable pub reset_api_retry_backoff : Manager → Manager
reset_api_retry_backoff m = record m { api_sync_failures = 0; next_api_sync_at_ms = 0 }

abbrev pub signal : Level → ℕ → Manager → Manager
signal level err m = record m { gate = set_level level err m.gate }

-- `_has_current ? Available : None`
abbrev pub fallback_level : Manager → Level
fallback_level m = if m.has_current then available else no_level

unfoldable pub is_success : ℤ → Bool
is_success http = not (int_ltb http (pos 200)) && int_ltb http (pos 300)

abbrev pub note_error : ℕ → Manager → Manager
note_error err m = record m { stats = record s { last_err = err } }
  where
    open m use {stats as s}

unfoldable pub apply_cancelled : ℕ → Manager → Manager
apply_cancelled now m =
    let noted = record (note_error invalid_state m) {
      state = if m.has_current then ready else idle;
    } in
    schedule_api_retry_backoff now (signal (fallback_level m) invalid_state noted)

unfoldable pub apply_failed : ℕ → Pending → Manager → Manager
apply_failed now p m =
    let noted = record m {
      stats = record s {
        api_fetch_fail = u32 (s.api_fetch_fail + 1);
        last_err = p.fetch_err;
        last_http_status = p.http_status;
      };
      state = if m.has_current then ready else error;
    } in
    let gate_err = if not (p.fetch_err == result_ok) then p.fetch_err else invalid_state in
    schedule_api_retry_backoff now (signal (fallback_level m) gate_err noted)
  where
    open m use {stats as s}

unfoldable pub apply_unparsed : ℕ → Pending → Manager → Manager
apply_unparsed now p m =
    let noted = record m {
      stats = record s {
        parse_fail = u32 (s.parse_fail + 1);
        last_err = p.parse_err;
        last_http_status = p.http_status;
      };
      state = if m.has_current then ready else error;
    } in
    schedule_api_retry_backoff now (signal (fallback_level m) p.parse_err noted)
  where
    open m use {stats as s}

-- `save_err` is what the storage answers, if it is asked.
unfoldable pub store_candidate : ℕ → Pending → Settings → Manager → Manager
store_candidate save_err p candidate m =
    let failed = not (save_err == result_ok) in
    record m {
      current = candidate;
      has_current = true;
      saved = m.saved ++ candidate ∷ [];
      stats = record s {
        nvs_save_fail = if failed then u32 (s.nvs_save_fail + 1) else s.nvs_save_fail;
        last_err = if failed then save_err else result_ok;
        last_http_status = p.http_status;
        api_fetch_ok = u32 (s.api_fetch_ok + 1);
      };
      state = ready;
    }
  where
    open m use {stats as s}

unfoldable pub keep_current : Pending → Settings → Manager → Manager
keep_current p candidate m = record m {
  current = if not m.has_current then candidate else m.current;
  has_current = true;
  stats = record s {
    api_fetch_ok = u32 (s.api_fetch_ok + 1);
    last_err = result_ok;
    last_http_status = p.http_status;
  };
  state = ready;
}
  where
    open m use {stats as s}

unfoldable pub call_back : Manager → Manager
call_back m = if m.has_callback then record m { updates = m.updates ++ m.current ∷ [] } else m

unfoldable pub merge_parsed : ℕ → Pending → Settings → Manager → Manager
merge_parsed save_err p parsed m =
    let candidate = apply_changes (record c { is_changed = false }) parsed in
    let stored =
      if candidate.is_changed
      then store_candidate save_err p candidate m
      else keep_current p candidate m in
    call_back (reset_api_retry_backoff (signal synced result_ok stored))
  where
    open m use {current as c}

unfoldable pub apply_pending_update : ℕ → ℕ → Pending → Manager → Manager
apply_pending_update now save_err p m =
    if p.cancelled
    then apply_cancelled now m
    else if not (p.fetch_err == result_ok) || not (is_success p.http_status)
    then apply_failed now p m
    else elim p.parsed [
      | none ↦ apply_unparsed now p m
      | some parsed ↦ merge_parsed save_err p parsed m
    ]
