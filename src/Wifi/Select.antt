-- ===== src/Wifi/Select.antt =====
-- The choice of an access point in src/Platform/Espressif/Wifi/WiFiManager.cpp: the cache of the
-- scans, `selectBestAccessPoint` and `evaluateBetterAccessPoint`.
pub mod Cache
pub mod Choice
pub mod Best
use io_tsmart_sys_core.Base.{
  ℕ, ◌%◌, ◌&&◌, ◌||◌, not, Bool, true, false, List, [], ◌∷◌, ◌++◌, Option, none, some, Text,
  text_eq, length, get_or, ltb, if◌then◌else◌, sub32,
}
use io_tsmart_sys_core.Base.Int.{ℤ, ◌-ℤ◌, int_leb, int_ltb, pos, negsuc}
use io_tsmart_sys_core.Wifi.{
  Credential, WifiConfig, AccessPoint, Target, Wifi, Compiled, configured, no_target,
}

-- `sameSsid`
abbrev pub same_ssid : Text → Option Text → Bool
same_ssid left none = false
same_ssid left (some right) = text_eq left right

unfoldable pub password_for_configured_ssid : List Credential → Text → Option Text
password_for_configured_ssid [] ssid = none
password_for_configured_ssid (c ∷ cs) ssid =
    if same_ssid ssid c.ssid then c.password else password_for_configured_ssid cs ssid

unfoldable pub is_configured_ssid : List Credential → Text → Bool
unfolding password_for_configured_ssid
is_configured_ssid cs ssid = elim (password_for_configured_ssid cs ssid) [
  | none ↦ false
  | some _ ↦ true
]

-- An entry of a scan; the radio may give no BSSID.
pub record Scanned : Type 0 where
  pub ssid : Text
  pub bssid : Option (List ℕ)
  pub channel : ℤ
  pub rssi : ℤ

abbrev pub is_at : Text → List ℕ → AccessPoint → Bool
is_at ssid bssid ap = text_eq ap.ssid ssid && text_eq ap.bssid bssid

-- The found entry is renewed, or a new one is added at the end.
unfoldable pub store : ℕ → Scanned → List ℕ → List AccessPoint → List AccessPoint
store now s bssid [] =
    record { ssid = s.ssid; bssid = bssid; channel = s.channel; rssi = s.rssi; last_seen_ms = now }
    ∷ []
store now s bssid (ap ∷ aps) =
    if is_at s.ssid bssid ap
    then record ap { channel = s.channel; rssi = s.rssi; last_seen_ms = now } ∷ aps
    else ap ∷ store now s bssid aps

unfoldable pub note_scanned : List Credential → ℕ → Scanned → List AccessPoint → List AccessPoint
unfolding store
note_scanned cs now s aps =
    if not (is_configured_ssid cs s.ssid)
    then aps
    else elim s.bssid [ none ↦ aps | some bssid ↦ store now s bssid aps ]

-- The loop over the scan.
unfoldable pub note_scan : List Credential → ℕ → List Scanned → List AccessPoint → List AccessPoint
note_scan cs now [] aps = aps
note_scan cs now (s ∷ ss) aps = note_scan cs now ss (note_scanned cs now s aps)

abbrev pub is_stale : WifiConfig → ℕ → AccessPoint → Bool
is_stale cfg now ap = ltb cfg.roam_scan_cache_max_age_ms (sub32 now ap.last_seen_ms)

unfoldable pub prune : WifiConfig → ℕ → List AccessPoint → List AccessPoint
prune cfg now [] = []
prune cfg now (ap ∷ aps) =
    let rest = prune cfg now aps in if is_stale cfg now ap then rest else ap ∷ rest

-- A scan that finds nothing, or fails, leaves the cache as it is, stale entries included.
unfoldable pub update_access_point_cache :
    Compiled → WifiConfig → ℕ → List Scanned → List AccessPoint → List AccessPoint
update_access_point_cache compiled cfg now [] aps = aps
update_access_point_cache compiled cfg now (s ∷ ss) aps =
    prune cfg now (note_scan (configured compiled cfg) now (s ∷ ss) aps)

-- The entries that the loop does not pass over become candidates.
unfoldable pub keep : (AccessPoint → Bool) → List AccessPoint → List AccessPoint
keep accepts [] = []
keep accepts (ap ∷ aps) = let rest = keep accepts aps in if accepts ap then ap ∷ rest else rest

abbrev pub is_candidate : WifiConfig → ℕ → Option Text → AccessPoint → Bool
is_candidate cfg now ssid ap = not (is_stale cfg now ap || not (same_ssid ap.ssid ssid))

-- The head of the candidates once they are sorted by falling RSSI. `std::sort` may put any of the
-- strongest first; here it is the first of them.
unfoldable pub strongest : List AccessPoint → Option AccessPoint
strongest [] = none
strongest (ap ∷ aps) = elim (strongest aps) [
  | none ↦ some ap
  | some best ↦ if int_ltb ap.rssi best.rssi then some best else some ap
]

abbrev pub text_or_empty : Option Text → Text
text_or_empty none = []
text_or_empty (some t) = t

-- The target for one pair of credentials, with the access point where there is one.
abbrev pub aimed : Credential → Option AccessPoint → Target
aimed c none = record no_target { ssid = text_or_empty c.ssid; password = text_or_empty c.password }
aimed c (some ap) = record {
  ssid = text_or_empty c.ssid;
  password = text_or_empty c.password;
  bssid = some ap.bssid;
  channel = ap.channel;
  rssi = ap.rssi;
}

abbrev pub no_credential : Credential
no_credential = record { ssid = none; password = none }

-- The credentials whose turn it is.
abbrev pub in_turn : List Credential → ℕ → Credential
in_turn cs index = get_or cs (index % length cs) no_credential

unfoldable pub select_best_access_point : Compiled → ℕ → List Scanned → Wifi → Wifi
select_best_access_point compiled now scan w = elim (configured compiled w.cfg) [
  | [] ↦ record w { target = no_target }
  | c ∷ cs ↦
      let chosen = in_turn (c ∷ cs) w.credential_attempt_index in
      let cache = update_access_point_cache compiled w.cfg now scan w.ap_cache in
      record w {
        ap_cache = cache;
        target = aimed chosen (strongest (keep (is_candidate w.cfg now chosen.ssid) cache));
      }
]

-- `copyBssid` of what the radio gives.
abbrev bssid_or_zero : Option (List ℕ) → List ℕ
bssid_or_zero none = 0 ∷ 0 ∷ 0 ∷ 0 ∷ 0 ∷ 0 ∷ []
bssid_or_zero (some b) = b

-- The tests of `evaluateBetterAccessPoint` on one entry.
abbrev pub is_better : List Credential → WifiConfig → ℕ → Option (List ℕ) → ℤ → AccessPoint → Bool
is_better cs cfg now current_bssid current_rssi ap =
    not (is_stale cfg now ap || not (is_configured_ssid cs ap.ssid))
    && (not (text_eq ap.bssid (bssid_or_zero current_bssid))
        && (not (int_ltb (ap.rssi -ℤ current_rssi) cfg.roam_min_improvement_db)
            && not (int_ltb ap.rssi cfg.roam_candidate_min_rssi)))

abbrev pub beats : AccessPoint → Option AccessPoint → Bool
beats ap none = true
beats ap (some best) = int_ltb best.rssi ap.rssi

-- The loop, with the best entry so far.
unfoldable pub best_of :
    (AccessPoint → Bool) → List AccessPoint → Option AccessPoint → Option AccessPoint
best_of accepts [] best = best
best_of accepts (ap ∷ aps) best =
    best_of accepts aps (if accepts ap && beats ap best then some ap else best)

abbrev pub roam_target : AccessPoint → Text → Target
roam_target best password = record {
  ssid = best.ssid;
  password = password;
  bssid = some best.bssid;
  channel = best.channel;
  rssi = best.rssi;
}

-- What the radio says of the present connection, and what a scan finds.
pub record Current : Type 0 where
  pub bssid : Option (List ℕ)
  pub rssi : ℤ

-- What follows the loop.
unfoldable pub prepare : List Credential → Option AccessPoint → Wifi → Wifi × Bool
prepare cs none w = (w, false)
prepare cs (some best) w = elim (password_for_configured_ssid cs best.ssid) [
  | none ↦ (w, false)
  | some password ↦
      (record w { target = roam_target best password; use_prepared_target_once = true }, true)
]

unfoldable pub evaluate_better_access_point :
    Compiled → ℕ → List Scanned → Current → Wifi → Wifi × Bool
unfolding prepare
evaluate_better_access_point compiled now scan current w =
    let cs = configured compiled w.cfg in
    let cache = update_access_point_cache compiled w.cfg now scan w.ap_cache in
    prepare cs (best_of (is_better cs w.cfg now current.bssid current.rssi) cache none)
      (record w { ap_cache = cache })
