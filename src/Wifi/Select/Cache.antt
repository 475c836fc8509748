-- ===== src/Wifi/Select/Cache.antt =====
-- The cache of access points in src/Platform/Espressif/Wifi/WiFiManager.cpp: one entry for an SSID
-- and a BSSID, and after a scan none that is too old.
use io_tsmart_sys_core.Base.{
  ℕ, ◌&&◌, false, ◌≡◌, refl, List, [], ◌∷◌, Text, text_eq, text_eq_iff, arith, Bool-cases,
  Option-cases, inl, inr,
}
use io_tsmart_sys_core.Wifi.{Credential, WifiConfig, AccessPoint, Compiled, configured}
use io_tsmart_sys_core.Wifi.Select.{
  Scanned, is_at, store, note_scanned, note_scan, is_stale, is_configured_ssid, prune,
  update_access_point_cache,
}

-- No entry has this SSID and this BSSID.
abbrev Absent : Text → List ℕ → List AccessPoint → Type 0
Absent ssid bssid [] = Unit {0}
Absent ssid bssid (ap ∷ aps) = (is_at ssid bssid ap ≡ false) × Absent ssid bssid aps

abbrev pub Distinct : List AccessPoint → Type 0
Distinct [] = Unit {0}
Distinct (ap ∷ aps) = Absent ap.ssid ap.bssid aps × Distinct aps

abbrev pub AllRecent : WifiConfig → ℕ → List AccessPoint → Type 0
AllRecent cfg now [] = Unit {0}
AllRecent cfg now (ap ∷ aps) = (is_stale cfg now ap ≡ false) × AllRecent cfg now aps

store-Absent :
    (now : ℕ) (s : Scanned) (bssid : List ℕ) (t : Text) (b : List ℕ) (aps : List AccessPoint)
    → (text_eq s.ssid t && text_eq bssid b) ≡ false
    → Absent t b aps
    → Absent t b (store now s bssid aps)
unfolding store
store-Absent now s bssid t b [] h a = (h, tt)
store-Absent now s bssid t b (ap ∷ aps) h (here, rest) = elim (Bool-cases (is_at s.ssid bssid ap)) [
  | inl same ↦ simp same (here, rest)
  | inr other ↦ simp other (here, store-Absent now s bssid t b aps h rest)
]

is_at_flip :
    (s : Text) (b : List ℕ) (ap : AccessPoint)
    → is_at s b ap ≡ false
    → (text_eq s ap.ssid && text_eq b ap.bssid) ≡ false
is_at_flip s b ap h = ground (
  arith,
  text_eq_iff s ap.ssid,
  text_eq_iff b ap.bssid,
  text_eq_iff ap.ssid s,
  text_eq_iff ap.bssid b,
)

store-Distinct :
    (now : ℕ) (s : Scanned) (bssid : List ℕ) (aps : List AccessPoint)
    → Distinct aps
    → Distinct (store now s bssid aps)
unfolding store
store-Distinct now s bssid [] d = (tt, tt)
store-Distinct now s bssid (ap ∷ aps) (first, rest) = elim (Bool-cases (is_at s.ssid bssid ap)) [
  | inl same ↦ simp same (first, rest)
  | inr other ↦ simp other (
    store-Absent now s bssid ap.ssid ap.bssid aps (is_at_flip s.ssid bssid ap other) first,
    store-Distinct now s bssid aps rest,
  )
]

note_scanned-Distinct :
    (cs : List Credential) (now : ℕ) (s : Scanned) (aps : List AccessPoint)
    → Distinct aps
    → Distinct (note_scanned cs now s aps)
unfolding note_scanned
note_scanned-Distinct cs now s aps d = elim (Bool-cases (is_configured_ssid cs s.ssid)) [
  | inr other ↦ simp other d
  | inl known ↦ elim (Option-cases s.bssid) [
    | inl gone ↦ rw (known, gone, note_scanned) d
    | inr (b, there) ↦ rw (known, there, note_scanned) (store-Distinct now s b aps d)
  ]
]

note_scan-Distinct :
    (cs : List Credential) (now : ℕ) (ss : List Scanned) (aps : List AccessPoint)
    → Distinct aps
    → Distinct (note_scan cs now ss aps)
unfolding note_scan
note_scan-Distinct cs now [] aps d = d
note_scan-Distinct cs now (s ∷ ss) aps d =
    note_scan-Distinct cs now ss (note_scanned cs now s aps) (note_scanned-Distinct cs now s aps d)

module _ (cfg : WifiConfig) (now : ℕ) where
  prune-Absent :
      (t : Text) (b : List ℕ) (aps : List AccessPoint)
      → Absent t b aps
      → Absent t b (prune cfg now aps)
  unfolding prune
  prune-Absent t b [] a = a
  prune-Absent t b (ap ∷ aps) (here, rest) = elim (Bool-cases (is_stale cfg now ap)) [
    | inl old ↦ simp old (prune-Absent t b aps rest)
    | inr recent ↦ simp recent (here, prune-Absent t b aps rest)
  ]

  prune-Distinct : (aps : List AccessPoint) → Distinct aps → Distinct (prune cfg now aps)
  unfolding prune
  prune-Distinct [] d = d
  prune-Distinct (ap ∷ aps) (first, rest) = elim (Bool-cases (is_stale cfg now ap)) [
    | inl old ↦ simp old (prune-Distinct aps rest)
    | inr recent ↦ simp recent (prune-Absent ap.ssid ap.bssid aps first, prune-Distinct aps rest)
  ]

  prune-AllRecent : (aps : List AccessPoint) → AllRecent cfg now (prune cfg now aps)
  unfolding prune
  prune-AllRecent [] = tt
  prune-AllRecent (ap ∷ aps) = elim (Bool-cases (is_stale cfg now ap)) [
    | inl old ↦ simp old (prune-AllRecent aps)
    | inr recent ↦ simp recent (refl, prune-AllRecent aps)
  ]

-- No entry is older than the configured age; or the scan found nothing, and the cache is as it was.
abbrev pub Renewed : WifiConfig → ℕ → List Scanned → List AccessPoint → List AccessPoint → Type 0
Renewed cfg now [] aps cache = cache ≡ aps
Renewed cfg now (s ∷ ss) aps cache = AllRecent cfg now cache

-- A cache with one entry for each SSID and BSSID stays one under any scan; after a scan that finds
-- anything no entry is older than the configured age, and one that finds nothing leaves it as it is.
pub update_access_point_cache-Distinct :
    (compiled : Compiled) (cfg : WifiConfig) (now : ℕ) (scan : List Scanned)
    (aps : List AccessPoint)
    → Distinct aps
    → Distinct (update_access_point_cache compiled cfg now scan aps)
      × Renewed cfg now scan aps (update_access_point_cache compiled cfg now scan aps)
unfolding update_access_point_cache
update_access_point_cache-Distinct compiled cfg now [] aps d = (d, refl)
update_access_point_cache-Distinct compiled cfg now (s ∷ ss) aps d = (
  prune-Distinct cfg now _ (note_scan-Distinct (configured compiled cfg) now (s ∷ ss) aps d),
  prune-AllRecent cfg now _,
)
