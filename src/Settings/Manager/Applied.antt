-- ===== src/Settings/Manager/Applied.antt =====
-- `applyPendingUpdate` of src/Core/Settings/SettingsManager.cpp, on a failed and on a good fetch.
use Prim.Native.Nat.{min}
use io_tsmart_sys_core.Base.{
  ℕ, ◌+◌, ◌%◌, ◌≤◌, Bool, true, false, not, ◌||◌, ◌≡◌, refl, sym, ◌∙◌, ◌⊎◌, inl, inr, [], ◌∷◌, ◌++◌,
  none, some, arith, u64_mod, ◌==◌, if◌then◌else◌, Bool-cases, ◌≢◌, ap,
}
use io_tsmart_sys_core.SettingsGate.{Gate}
use io_tsmart_sys_core.Settings.Config.{Settings, apply_changes}
use io_tsmart_sys_core.Settings.Config.Apply.{apply_changes-IsMerge}
use io_tsmart_sys_core.Settings.Manager.{
  ManagerState, Stats, Manager, ready, Pending, result_ok, is_success, apply_pending_update,
  apply_cancelled, apply_failed, apply_unparsed, merge_parsed, store_candidate, keep_current,
  call_back, reset_api_retry_backoff, schedule_api_retry_backoff,
}
use io_tsmart_sys_core.Settings.Manager.Delay.{spec_delay, retry_delay_lem}

-- The fetch was cancelled, failed, was answered outside 200 to 299, or gave no settings.
abbrev pub IsFailed : Pending → Type 0
IsFailed p =
    (p.cancelled ≡ true)
    ⊎ (p.fetch_err ≢ result_ok)
    ⊎ (is_success p.http_status ≡ false)
    ⊎ (p.parsed ≡ none)

-- The settings and what was done with them are as before, and a retry is due after the delay.
pub record IsKept (now : ℕ) (m n : Manager) : Type 0 where
  pub current : n.current ≡ m.current
  pub has_current : n.has_current ≡ m.has_current
  pub saved : n.saved ≡ m.saved
  pub updates : n.updates ≡ m.updates
  pub counted : n.api_sync_failures ≡ min (m.api_sync_failures + 1) 15
  pub due : n.next_api_sync_at_ms ≡ (now + spec_delay n.api_sync_failures) % u64_mod

module _ (now : ℕ) (m : Manager) (few : m.api_sync_failures ≤ 15) where
  schedule-IsKept :
      (state : ManagerState) (stats : Stats) (gate : Gate)
      → IsKept now m
          (schedule_api_retry_backoff now (record m { state = state; stats = stats; gate = gate }))
  unfolding schedule_api_retry_backoff
  schedule-IsKept state stats gate = record {
    current = refl;
    has_current = refl;
    saved = refl;
    updates = refl;
    counted = ground arith;
    due = ap (λ d. (now + d) % u64_mod) (retry_delay_lem _ (ground arith));
  }

  apply_cancelled-IsKept : IsKept now m (apply_cancelled now m)
  unfolding apply_cancelled
  apply_cancelled-IsKept = schedule-IsKept _ _ _

  apply_failed-IsKept : (p : Pending) → IsKept now m (apply_failed now p m)
  unfolding apply_failed
  apply_failed-IsKept p = schedule-IsKept _ _ _

  apply_unparsed-IsKept : (p : Pending) → IsKept now m (apply_unparsed now p m)
  unfolding apply_unparsed
  apply_unparsed-IsKept p = schedule-IsKept _ _ _

abbrev is_refused : Pending → Bool
is_refused p = not (p.fetch_err == result_ok) || not (is_success p.http_status)

IsFailed-cases :
    (p : Pending) → IsFailed p → (p.cancelled ≡ true) ⊎ (is_refused p ≡ true) ⊎ (p.parsed ≡ none)
IsFailed-cases p f = ground arith

-- A failed fetch leaves the settings, what was stored and what was announced as they are; it counts
-- as one more failure, up to 15, and the next synchronisation is due after 5 seconds doubled with
-- each failure, and at most a minute.
pub failed_update-IsKept :
    (now err : ℕ) (p : Pending) (m : Manager)
    → IsFailed p
    → m.api_sync_failures ≤ 15
    → IsKept now m (apply_pending_update now err p m)
unfolding apply_pending_update
failed_update-IsKept now err p m f few = elim (Bool-cases p.cancelled) [
  | inl stop ↦ simp stop (apply_cancelled-IsKept now m few)
  | inr go ↦ elim (Bool-cases (is_refused p)) [
    | inl refused ↦ simp (go, refused) (apply_failed-IsKept now m few p)
    | inr fine ↦
        let gone : p.parsed ≡ none = ground (arith, IsFailed-cases p f) in
        simp (go, fine, gone) (apply_unparsed-IsKept now m few p)
  ]
]

abbrev pub candidate : Settings → Manager → Settings
candidate parsed m = apply_changes (record c { is_changed = false }) parsed
  where
    open m use {current as c}

abbrev pub unmarked : Settings → Settings
unmarked s = record s { is_changed = false }

-- The update was merged into the settings, stored if that changed anything, and announced.
pub record IsApplied (parsed : Settings) (m n : Manager) : Type 0 where
  pub has_current : n.has_current ≡ true
  pub ready_now : n.state ≡ ready
  pub merged : unmarked n.current ≡ unmarked (candidate parsed m)
  pub stored :
      n.saved
      ≡ (if (candidate parsed m).is_changed then m.saved ++ candidate parsed m ∷ [] else m.saved)
  pub announced : n.updates ≡ (if m.has_callback then m.updates ++ n.current ∷ [] else m.updates)
  pub no_failures : n.api_sync_failures ≡ 0
  pub due_at_once : n.next_api_sync_at_ms ≡ 0

unchanged :
    (parsed : Settings) (m : Manager)
    → (candidate parsed m).is_changed ≡ false
    → candidate parsed m ≡ unmarked m.current
unchanged parsed m h = ((apply_changes-IsMerge (unmarked m.current) parsed).marked.0 h).1

module _ (err : ℕ) (p : Pending) (parsed : Settings) (m : Manager) where
  merge_parsed_current : (merge_parsed err p parsed m).current ≡ (
      if (candidate parsed m).is_changed
      then candidate parsed m
      else if not m.has_current
      then candidate parsed m
      else m.current)
  unfolding merge_parsed store_candidate keep_current call_back reset_api_retry_backoff
  merge_parsed_current = ground arith

  merge_parsed_merges :
      unmarked (merge_parsed err p parsed m).current ≡ unmarked (candidate parsed m)
  merge_parsed_merges = elim (Bool-cases (candidate parsed m).is_changed) [
    | inl new ↦
        let e : (merge_parsed err p parsed m).current ≡ candidate parsed m =
          merge_parsed_current ∙ simp new in
        ap unmarked e
    | inr old ↦ elim (Bool-cases m.has_current) [
      | inl there ↦
          let e : (merge_parsed err p parsed m).current ≡ m.current =
            merge_parsed_current ∙ simp (old, there) in
          ap unmarked e ∙ ap unmarked (sym (unchanged parsed m old))
      | inr absent ↦
          let e : (merge_parsed err p parsed m).current ≡ candidate parsed m =
            merge_parsed_current ∙ simp (old, absent) in
          ap unmarked e
    ]
  ]

  merge_parsed-IsApplied : IsApplied parsed m (merge_parsed err p parsed m)
  unfolding merge_parsed store_candidate keep_current call_back reset_api_retry_backoff
  merge_parsed-IsApplied = record {
    has_current = ground arith;
    ready_now = ground arith;
    merged = merge_parsed_merges;
    stored = ground arith;
    announced = ground arith;
    no_failures = ground arith;
    due_at_once = ground arith;
  }

-- A fetch that succeeded and was parsed is merged into the settings as `applyChanges` does, whether
-- or not there were any before; the result is stored only if it differs, and is announced to the
-- callback in any case; the failures are forgotten. What the storage answers makes no difference.
pub good_update-IsApplied :
    (now err : ℕ) (p : Pending) (parsed : Settings) (m : Manager)
    → p.cancelled ≡ false
    → p.fetch_err ≡ result_ok
    → is_success p.http_status ≡ true
    → p.parsed ≡ some parsed
    → IsApplied parsed m (apply_pending_update now err p m)
unfolding apply_pending_update
good_update-IsApplied now err p parsed m go fetched success there =
    simp (go, fetched, success, there) (merge_parsed-IsApplied err p parsed m)
