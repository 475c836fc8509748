-- ===== src/App/Bootstrap.antt =====
-- `ConnectivityBootstrap` of src/App/Managers/ConnectivityBootstrap.h and .cpp, over the settings
-- manager and the Wi-Fi manager.
pub mod Join
mod Tests
use io_tsmart_sys_core.Base.{ℕ, Bool, not, ◌&&◌, ◌==◌, Option, none, some, if◌then◌else◌}
use io_tsmart_sys_core.Settings.Wifi.{wifi_is_valid}
use io_tsmart_sys_core.Settings.Config.{Settings, api_is_valid}
use io_tsmart_sys_core.Settings.Manager.{Manager, result_ok}
use io_tsmart_sys_core.Settings.Manager.Loop.{init}
use io_tsmart_sys_core.Wifi.{Wifi, Compiled, load_from_settings, default_config}
use io_tsmart_sys_core.Wifi.Loop.{Radio, begin}

pub data BootPath : Type 0 where
  wifi_path provisioning : BootPath

pub record Boot : Type 0 where
  pub manager : Manager
  pub wifi : Wifi

-- `copyCurrent`
unfoldable pub copy_current : Manager → Option Settings
copy_current m = if m.has_current then some m.current else none

abbrev pub may_connect : Settings → Bool
may_connect s = wifi_is_valid s.wifi && (not s.in_config_mode && api_is_valid s.api)

-- `loadFromSettings` into a new configuration, and `begin` with it.
abbrev pub connect_by : Compiled → Radio → Settings → Boot → Boot
connect_by compiled r s b = record b {
  wifi = begin compiled (load_from_settings s default_config).0 r b.wifi;
}

-- `load_err` and `loaded` are what the storage answers.
unfoldable pub run : Compiled → Radio → ℕ → Settings → Boot → Boot × BootPath
run compiled r load_err loaded b =
    let ready = record b { manager = init load_err loaded b.manager } in
    if not (load_err == result_ok)
    then (ready, provisioning)
    else elim (copy_current ready.manager) [
      | none ↦ (ready, provisioning)
      | some s ↦
          if may_connect s
          then (connect_by compiled r s ready, wifi_path)
          else (ready, provisioning)
    ]
