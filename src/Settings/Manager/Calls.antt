-- ===== src/Settings/Manager/Calls.antt =====
-- Sequences of calls on the `SettingsManager` of src/Core/Settings/SettingsManager.cpp.
pub mod Latched
pub mod Current
use io_tsmart_sys_core.Base.{
  ℕ, ◌≤◌, Bool, true, false, ◌≡◌, refl, ◌⊎◌, inl, inr, List, [], ◌∷◌, Text, length,
}
use io_tsmart_sys_core.Settings.Wifi.{WifiConfig}
use io_tsmart_sys_core.Settings.Config.{Settings}
use io_tsmart_sys_core.Settings.Manager.{Manager, Request}
use io_tsmart_sys_core.Settings.Manager.Url.{Build}
use io_tsmart_sys_core.Settings.Manager.Loop.{
  FetchResult, Env, init, refresh_from_api_async, on_fetch_completed, handle, save, save_wifi_only,
  clear, new_manager,
}

-- A call by the application, or by the fetcher; each with what the storage or the fetcher answers.
pub data Call : Type 0 where
  inited : ℕ → Settings → Call
  refreshed : ℕ → Request → Call
  fetched : FetchResult → Call
  handled : Env → Call
  saved : ℕ → Settings → Call
  saved_wifi : ℕ → WifiConfig → Call
  cleared : ℕ → Call

module _ (b : Build) (parse : Text → ℕ × Settings) where
  unfoldable pub step : Call → Manager → Manager
  step (inited err s) m = init err s m
  step (refreshed start_err req) m = refresh_from_api_async b start_err req m
  step (fetched res) m = on_fetch_completed b parse res m
  step (handled e) m = handle b e m
  step (saved err s) m = (save err s m).0
  step (saved_wifi err w) m = save_wifi_only err w m
  step (cleared err) m = clear err m

  unfoldable pub run : List Call → Manager → Manager
  run [] m = m
  run (c ∷ cs) m = run cs (step c m)
