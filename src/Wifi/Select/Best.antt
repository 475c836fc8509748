-- ===== src/Wifi/Select/Best.antt =====
-- The access points that src/Platform/Espressif/Wifi/WiFiManager.cpp chooses are the strongest of
-- those that it accepts.
use io_tsmart_sys_core.Base.{
  ℕ, Bool, true, false, ◌≡◌, refl, ◌⊎◌, inl, inr, List, ◌∷◌, Option, none, some, Text, arith,
  Option-cases,
}
use io_tsmart_sys_core.Base.Int.{ℤ}
use io_tsmart_sys_core.Wifi.Select.Choice.{Refused, Chosen, strongest-Chosen, best_of-Chosen}
use io_tsmart_sys_core.Wifi.{WifiConfig, Credential, AccessPoint, Wifi, Compiled, configured}
use io_tsmart_sys_core.Wifi.Select.{
  prepare, is_candidate, in_turn, aimed, is_configured_ssid, roam_target, select_best_access_point,
  Scanned, Current, keep, strongest, is_better, evaluate_better_access_point,
  update_access_point_cache, password_for_configured_ssid,
}

-- The choice in the cache `cache`.
abbrev chosen_in : ℕ → Wifi → Credential → List AccessPoint → Option AccessPoint
chosen_in now w chosen cache = strongest (keep (is_candidate w.cfg now chosen.ssid) cache)

select_best_access_point_with :
    (compiled : Compiled) (now : ℕ) (scan : List Scanned) (w : Wifi) (c : Credential)
    (cs : List Credential) (cache : List AccessPoint)
    → configured compiled w.cfg ≡ c ∷ cs
    → update_access_point_cache compiled w.cfg now scan w.ap_cache ≡ cache
    → select_best_access_point compiled now scan w ≡ record w {
      ap_cache = cache;
      target =
          let chosen = in_turn (c ∷ cs) w.credential_attempt_index in
          aimed chosen (chosen_in now w chosen cache);
    }
unfolding select_best_access_point
select_best_access_point_with compiled now scan w c cs cache e d = ground (arith, e, d)

-- With credentials configured, the cache is renewed by the scan, and the target is for the
-- credentials whose turn it is: it names the strongest entry of the renewed cache that has their SSID
-- and is not too old, if there is one.
pub select_best_access_point_lem :
    (compiled : Compiled) (now : ℕ) (scan : List Scanned) (w : Wifi) (c : Credential)
    (cs : List Credential) (cache : List AccessPoint)
    → configured compiled w.cfg ≡ c ∷ cs
    → update_access_point_cache compiled w.cfg now scan w.ap_cache ≡ cache
    → ((select_best_access_point compiled now scan w).ap_cache ≡ cache)
      × ((o : Option AccessPoint) × ((select_best_access_point compiled now scan w).target
            ≡ aimed (in_turn (c ∷ cs) w.credential_attempt_index) o)
          × Chosen
              (is_candidate w.cfg now (in_turn (c ∷ cs) w.credential_attempt_index).ssid)
              cache
              o)
select_best_access_point_lem compiled now scan w c cs cache e d =
    rw (select_best_access_point_with compiled now scan w c cs cache e d) (
      refl,
      (
        chosen_in now w (in_turn (c ∷ cs) w.credential_attempt_index) cache,
        refl,
        strongest-Chosen _ _,
      ),
    )

is_better_configured :
    (cs : List Credential) (cfg : WifiConfig) (now : ℕ) (bssid : Option (List ℕ)) (rssi : ℤ)
    (ap : AccessPoint)
    → is_better cs cfg now bssid rssi ap ≡ true
    → is_configured_ssid cs ap.ssid ≡ true
is_better_configured cs cfg now bssid rssi ap h = ground arith

abbrev pub Roams :
    (AccessPoint → Bool) → List Credential → List AccessPoint → Wifi → Wifi × Bool → Type 0
Roams accepts cs cache w r =
    (Refused accepts cache × (r ≡ (w, false)))
    ⊎ ((best : AccessPoint) × (password : Text) × Chosen accepts cache (some best)
        × (password_for_configured_ssid cs best.ssid ≡ some password)
        × (r ≡ (
          record w { target = roam_target best password; use_prepared_target_once = true },
          true,
        )))

prepare-Roams :
    (accepts : AccessPoint → Bool) (cs : List Credential) (cache : List AccessPoint) (w : Wifi)
    → ((ap : AccessPoint) → accepts ap ≡ true → is_configured_ssid cs ap.ssid ≡ true)
    → (o : Option AccessPoint) → Chosen accepts cache o
    → Roams accepts cs cache w (prepare cs o w)
unfolding prepare is_configured_ssid
prepare-Roams accepts cs cache w known none h = inl (h, refl)
prepare-Roams accepts cs cache w known (some best) h =
    elim (Option-cases (password_for_configured_ssid cs best.ssid)) [
      | inl gone ↦ let k = known best h.1 in absurd (ground arith)
      | inr (password, there) ↦ inr (best, password, h, there, rw (there, prepare))
    ]

-- Either no entry of the renewed cache passes the tests for roaming, and nothing but the cache
-- changes; or one of the strongest that pass becomes the prepared target, with the password that
-- is configured for it.
pub evaluate_better_access_point_lem :
    (compiled : Compiled) (now : ℕ) (scan : List Scanned) (current : Current) (w : Wifi)
    (cs : List Credential) (cache : List AccessPoint)
    → configured compiled w.cfg ≡ cs
    → update_access_point_cache compiled w.cfg now scan w.ap_cache ≡ cache
    → Roams
        (is_better cs w.cfg now current.bssid current.rssi)
        cs
        cache
        (record w { ap_cache = cache })
        (evaluate_better_access_point compiled now scan current w)
unfolding evaluate_better_access_point is_configured_ssid
evaluate_better_access_point_lem compiled now scan current w cs cache e d =
    rw (e, d)
      (prepare-Roams _ cs cache (record w { ap_cache = cache })
        (is_better_configured cs w.cfg now current.bssid current.rssi) _
        (best_of-Chosen (is_better cs w.cfg now current.bssid current.rssi) cache))
