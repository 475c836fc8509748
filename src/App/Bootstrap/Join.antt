-- ===== src/App/Bootstrap/Join.antt =====
-- Which network a device joins first, from src/App/Managers/ConnectivityBootstrap.cpp through
-- src/Contracts/Connections/WiFiManager.h to src/Platform/Espressif/Wifi/WiFiManager.cpp.
use native.Mathlib.Nat.{mod-eq_of_lt}
use io_tsmart_sys_core.Base.{
  inr, inl, Bool-cases, ℕ, true, false, ◌&&◌, ◌≡◌, refl, List, [], ◌∷◌, ◌++◌, Option, none, some,
  Text, arith, ◌==◌, length, ◌%◌,
}
use io_tsmart_sys_core.Connectivity.{no_bits}
use io_tsmart_sys_core.Settings.Wifi.{WifiProfile, profile_is_valid, selected}
use io_tsmart_sys_core.Settings.Config.{Settings, api_is_valid}
use io_tsmart_sys_core.Settings.Manager.{result_ok}
use io_tsmart_sys_core.Settings.Manager.Loop.{init}
use io_tsmart_sys_core.Wifi.{
  Credential, AccessPoint, Wifi, Compiled, Command, disconnect, join, join_target, connecting,
  configured, load_from_settings, default_config,
}
use io_tsmart_sys_core.Wifi.Profiles.{credential_of, selected_valid, load_from_settings-selected}
use io_tsmart_sys_core.Wifi.Select.{
  aimed, in_turn, keep, strongest, is_candidate, select_best_access_point,
  update_access_point_cache,
}
use io_tsmart_sys_core.Wifi.Loop.{
  Radio, or_configured, join_command, aim, dropped, connect_with, start_connect, begin,
}
use io_tsmart_sys_core.App.Bootstrap.{
  Boot, wifi_path, provisioning, copy_current, may_connect, connect_by, run,
}

-- The command joins the network of a profile, at an access point of choice or at any.
abbrev pub Joins : WifiProfile → Command → Type 0
Joins p disconnect = ⊥
Joins p (join ssid password) = (ssid ≡ some p.ssid) × (password ≡ some p.password)
Joins p (join_target ssid password channel bssid) = (ssid ≡ p.ssid) × (password ≡ p.password)

or_configured_same : (t : Text) → or_configured t (some t) ≡ some t
or_configured_same [] = refl
or_configured_same (c ∷ cs) = refl

join_command-Joins :
    (p : WifiProfile) (cs : List Credential) (o : Option AccessPoint)
    → Joins p (join_command (credential_of p ∷ cs) (aimed (credential_of p) o))
join_command-Joins p cs none = (or_configured_same p.ssid, or_configured_same p.password)
join_command-Joins p cs (some ap) = (refl, refl)

-- The state after a start of a connection, with what it sends.
pub record IsJoining (p : WifiProfile) (radio : List Command) (v : Wifi) : Type 0 where
  pub state : v.state ≡ connecting
  pub bits : v.bits ≡ no_bits
  pub command : Command
  pub sent : v.radio ≡ (radio ++ disconnect ∷ []) ++ command ∷ []
  pub joins : Joins p command

in_turn_first : (c : Credential) (cs : List Credential) → in_turn (c ∷ cs) 0 ≡ c
in_turn_first c cs =
    let none_passed : 0 % length (c ∷ cs) ≡ 0 = mod-eq_of_lt (omega arith) in rw none_passed refl

abbrev chosen : WifiProfile → Radio → List AccessPoint → Wifi → Option AccessPoint
chosen p r cache w = strongest (keep (is_candidate w.cfg r.later (some p.ssid)) cache)

module _ (compiled : Compiled) (r : Radio) (p : WifiProfile) (cs : List Credential) where
  select_first :
      (w : Wifi)
      → configured compiled w.cfg ≡ credential_of p ∷ cs
      → w.credential_attempt_index ≡ 0
      → let cache = update_access_point_cache compiled w.cfg r.later r.scan w.ap_cache in
        select_best_access_point compiled r.later r.scan w
        ≡ record w { ap_cache = cache; target = aimed (credential_of p) (chosen p r cache w) }
  unfolding select_best_access_point
  select_first w e first =
      rw (e, select_best_access_point) (rw (first, in_turn_first (credential_of p) cs) refl)

  start_connect-IsJoining :
      (w : Wifi)
      → configured compiled w.cfg ≡ credential_of p ∷ cs
      → w.credential_attempt_index ≡ 0
      → w.use_prepared_target_once ≡ false
      → IsJoining p w.radio (start_connect compiled r w)
  unfolding start_connect connect_with aim
  start_connect-IsJoining w e first fresh =
      rw (e, fresh, select_first (record (dropped w) { use_prepared_target_once = false }) e first)
        (record {
          state = refl;
          bits = refl;
          command = join_command (credential_of p ∷ cs) (aimed (credential_of p) (chosen p r _ w));
          sent = refl;
          joins = join_command-Joins p cs _;
        })

begin-IsJoining :
    (compiled : Compiled) (r : Radio) (s : Settings) (w : Wifi)
    → profile_is_valid (selected s.wifi) ≡ true
    → w.credential_attempt_index ≡ 0
    → w.use_prepared_target_once ≡ false
    → IsJoining
        (selected s.wifi)
        w.radio
        (begin compiled (load_from_settings s default_config).0 r w)
unfolding begin
begin-IsJoining compiled r s w valid first fresh =
    let (accepted, (cs, e)) = load_from_settings-selected s default_config compiled valid in
    start_connect-IsJoining compiled r (selected s.wifi) cs _ e first fresh

connects :
    (compiled : Compiled) (r : Radio) (loaded : Settings) (b : Boot)
    → may_connect loaded ≡ true
    → run compiled r result_ok loaded b ≡ (
      connect_by compiled r loaded (record b { manager = init result_ok loaded b.manager }),
      wifi_path,
    )
unfolding run copy_current init
connects compiled r loaded b may = rw may refl

-- A device whose storage loads settings with a selected profile of both strings, outside the
-- configuration mode and with a complete API section, boots by Wi-Fi: a Wi-Fi manager that has
-- counted no attempt first disconnects and then joins the network of that profile with its password,
-- whatever credentials the build holds and whatever a scan finds; no bit of the gate is left set.
pub boot_joins_selected :
    (compiled : Compiled) (r : Radio) (loaded : Settings) (b : Boot)
    → profile_is_valid (selected loaded.wifi) ≡ true
    → loaded.in_config_mode ≡ false
    → api_is_valid loaded.api ≡ true
    → b.wifi.credential_attempt_index ≡ 0
    → b.wifi.use_prepared_target_once ≡ false
    → ((run compiled r result_ok loaded b).1 ≡ wifi_path)
      × IsJoining (selected loaded.wifi) b.wifi.radio (run compiled r result_ok loaded b).0.wifi
boot_joins_selected compiled r loaded b valid mode api first fresh =
    let may : may_connect loaded ≡ true = rw (selected_valid loaded.wifi valid, mode, api) refl in
    rw (connects compiled r loaded b may)
      (refl, begin-IsJoining compiled r loaded b.wifi valid first fresh)

-- A device boots by Wi-Fi only if the storage loads and the loaded settings allow it; otherwise it
-- provisions, and its Wi-Fi manager is not touched.
pub run_provisions :
    (compiled : Compiled) (r : Radio) (err : ℕ) (loaded : Settings) (b : Boot)
    → ((err == result_ok) && may_connect loaded) ≡ false
    → ((run compiled r err loaded b).1 ≡ provisioning)
      × ((run compiled r err loaded b).0.wifi ≡ b.wifi)
unfolding run copy_current init
run_provisions compiled r err loaded b h = elim (Bool-cases (err == result_ok)) [
  | inl ok ↦ let may : may_connect loaded ≡ false = rw ok at h in rw (ok, may) (refl, refl)
  | inr bad ↦ rw bad (refl, refl)
]
