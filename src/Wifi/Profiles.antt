-- ===== src/Wifi/Profiles.antt =====
-- `WiFiConfig::loadFromSettings` of src/Contracts/Connections/WiFiManager.h against the profiles of
-- src/Contracts/Settings/WifiConfig.h.
use io_tsmart_sys_core.Base.{
  ◌++◌, not, ◌||◌, ltb, ap, if◌then◌else◌, not, ap, true, false, ◌≡◌, refl, ◌∙◌, inl, inr, List, [],
  ◌∷◌, some, Text, codes, text_eq, text_eq-eq, length, arith, Bool-cases,
}
use io_tsmart_sys_core.Settings.Wifi.{
  WifiConfig as StoredWifi, WifiProfile, profile_is_valid, selected, wifi_is_valid, has_any_profile,
}
use io_tsmart_sys_core.Settings.Config.{Settings}
use io_tsmart_sys_core.Wifi.{
  Credential, WifiConfig, append_profile, profiles, with_credentials, load_from_settings, Compiled,
  configured,
}

abbrev pub credential_of : WifiProfile → Credential
credential_of p = record { ssid = some p.ssid; password = some p.password }

not_both : (t : Text) → text_eq t (codes "tertiary") ≡ true → text_eq t (codes "secondary") ≡ false
unfolding text_eq
not_both t h = rw (text_eq-eq t (codes "tertiary") h)

append-cons :
    (p : WifiProfile) (c : Credential) (cs : List Credential)
    → (rest : List Credential) × (append_profile p (c ∷ cs) ≡ c ∷ rest)
unfolding append_profile
append-cons p c cs = elim (Bool-cases (not (profile_is_valid p) || not (ltb (length (c ∷ cs)) 3))) [
  | inl no_room ↦ (cs, rw no_room)
  | inr room ↦ (cs ++ credential_of p ∷ [], rw room)
]

append_nil :
    (p : WifiProfile)
    → append_profile p [] ≡ (if profile_is_valid p then credential_of p ∷ [] else [])
unfolding append_profile
append_nil p = ground arith

abbrev in_order : WifiProfile → WifiProfile → WifiProfile → List Credential
in_order p q r = append_profile r (append_profile q (append_profile p []))

abbrev pub Leads : WifiProfile → List Credential → Type 0
Leads p l = (cs : List Credential) × (l ≡ credential_of p ∷ cs)

first-Leads : (p q r : WifiProfile) → profile_is_valid p ≡ true → Leads p (in_order p q r)
first-Leads p q r h =
    let (xs, e) = append-cons q (credential_of p) [] in
    let (ys, d) = append-cons r (credential_of p) xs in
    (ys, rw (append_nil p, h) (ap (append_profile r) e ∙ d))

second-Leads :
    (p q r : WifiProfile)
    → profile_is_valid p ≡ false
    → profile_is_valid q ≡ true
    → Leads q (in_order p q r)
second-Leads p q r bad h =
    let (ys, d) = append-cons r (credential_of q) [] in
    (ys, rw (append_nil p, bad) (rw (append_nil q, h) d))

profiles-selected :
    (w : StoredWifi) → profile_is_valid (selected w) ≡ true → Leads (selected w) (profiles w)
unfolding profiles selected
profiles-selected w h = elim (Bool-cases (text_eq w.profile (codes "tertiary"))) [
  | inl third ↦ elim (Bool-cases (profile_is_valid w.tertiary)) [
    | inl good ↦ simp (third, good) (first-Leads w.tertiary w.primary w.secondary good)
    | inr bad ↦
        let other = not_both w.profile third in
        simp (third, bad, other)
          (second-Leads w.tertiary w.primary w.secondary bad (simp (third, bad, other) at h))
  ]
  | inr not_third ↦ elim (Bool-cases (text_eq w.profile (codes "secondary"))) [
    | inl second ↦ elim (Bool-cases (profile_is_valid w.secondary)) [
      | inl good ↦
          simp (not_third, second, good) (first-Leads w.secondary w.primary w.tertiary good)
      | inr bad ↦
          simp (not_third, second, bad)
            (second-Leads w.secondary w.primary w.tertiary bad (simp (not_third, second, bad) at h))
    ]
    | inr not_second ↦
        simp (not_third, not_second)
          (first-Leads w.primary w.secondary w.tertiary (simp (not_third, not_second) at h))
  ]
]

pub selected_valid :
    (w : StoredWifi) → profile_is_valid (selected w) ≡ true → wifi_is_valid w ≡ true
unfolding selected wifi_is_valid has_any_profile
selected_valid w h = ground arith

configured_with :
    (compiled : Compiled) (w : StoredWifi) (cfg : WifiConfig) (c : Credential)
    (cs l : List Credential)
    → l ≡ c ∷ cs
    → configured compiled (with_credentials w l cfg) ≡ c ∷ cs
unfolding configured with_credentials
configured_with compiled w cfg c cs l e = rw e refl

-- Where the selected profile has both strings, `loadFromSettings` accepts the settings, and the
-- manager is configured with that profile first, whatever was configured before and whatever
-- credentials the build holds.
pub load_from_settings-selected :
    (s : Settings) (cfg : WifiConfig) (compiled : Compiled)
    → profile_is_valid (selected s.wifi) ≡ true
    → ((load_from_settings s cfg).1 ≡ true)
      × Leads (selected s.wifi) (configured compiled (load_from_settings s cfg).0)
unfolding load_from_settings
load_from_settings-selected s cfg compiled h =
    let valid = selected_valid s.wifi h in
    let (cs, e) = profiles-selected s.wifi h in
    let first =
      configured_with compiled s.wifi cfg (credential_of (selected s.wifi)) cs (profiles s.wifi)
        e in
    simp valid (refl, (cs, first))
