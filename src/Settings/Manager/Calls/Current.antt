-- ===== src/Settings/Manager/Calls/Current.antt =====
-- Settings are at hand whenever the gate says so: src/Core/Settings/SettingsManager.cpp.
use io_tsmart_sys_core.Base.{
  ℕ, true, ◌≡◌, refl, ◌⊎◌, inl, inr, List, [], ◌∷◌, Text, arith, none, Option-cases,
}
use io_tsmart_sys_core.SettingsGate.{Gate, no_level, available, is_at_least, set_level}
use io_tsmart_sys_core.Settings.Config.{Settings}
use io_tsmart_sys_core.Settings.Manager.{
  Manager, Pending, apply_pending_update, apply_cancelled, apply_failed, apply_unparsed,
  merge_parsed, store_candidate, keep_current, call_back, reset_api_retry_backoff,
  schedule_api_retry_backoff,
}
use io_tsmart_sys_core.Settings.Manager.Url.{Build}
use io_tsmart_sys_core.Settings.Manager.Loop.{
  Env, init, on_fetch_completed, handle, save, save_wifi_only, new_manager, sync_from_api,
  refresh_from_api_async, take_pending, poll,
}
use io_tsmart_sys_core.Settings.Manager.Calls.{
  Call, inited, refreshed, fetched, handled, saved, saved_wifi, cleared, step, run,
}

-- No call erases the settings.
abbrev pub NoClear : List Call → Type 0
NoClear [] = Unit {0}
NoClear (cleared err ∷ cs) = ⊥
NoClear (_ ∷ cs) = NoClear cs

abbrev Backed : Manager → Type 0
Backed m = (m.gate.level ≡ no_level) ⊎ (m.has_current ≡ true)

set_level_none :
    (err : ℕ) (g : Gate) → g.level ≡ no_level → (set_level no_level err g).level ≡ no_level
unfolding set_level
set_level_none err g h = ground arith

apply_pending_update-Backed :
    (now err : ℕ) (p : Pending) (m : Manager) → Backed m → Backed (apply_pending_update now err p m)
unfolding apply_pending_update apply_cancelled apply_failed apply_unparsed merge_parsed
    store_candidate keep_current call_back reset_api_retry_backoff schedule_api_retry_backoff
apply_pending_update-Backed now err p m (inl h) = grind (arith, set_level_none)
apply_pending_update-Backed now err p m (inr h) = grind arith

module _ (b : Build) where
  sync_from_api-Backed :
      (e : Env) (m : Manager) → m.has_current ≡ true → (sync_from_api b e m).has_current ≡ true
  unfolding sync_from_api refresh_from_api_async schedule_api_retry_backoff
  sync_from_api-Backed e m h = ground arith

  poll-Backed : (e : Env) (m : Manager) → Backed m → Backed (poll b e m)
  poll-Backed e m (inl h) = ground arith
  poll-Backed e m (inr h) = ground (arith, sync_from_api-Backed e m h)

  take_pending-Backed : (e : Env) (m : Manager) → Backed m → Backed (take_pending b e m)
  take_pending-Backed e m h = elim (Option-cases m.pending) [
    | inl gone ↦ rw gone h
    | inr (p, there) ↦
        rw there (apply_pending_update-Backed e.later e.save_err p (record m { pending = none }) h)
  ]

  module _ (parse : Text → ℕ × Settings) where
    run-Backed : (cs : List Call) (m : Manager) → NoClear cs → Backed m → Backed (run b parse cs m)
    unfolding run step init refresh_from_api_async on_fetch_completed handle save save_wifi_only
    run-Backed [] m quiet h = h
    run-Backed (inited err s ∷ cs) m quiet h =
        run-Backed cs (step b parse (inited err s) m) quiet (ground arith)
    run-Backed (refreshed start_err req ∷ cs) m quiet h =
        run-Backed cs (step b parse (refreshed start_err req) m) quiet h
    run-Backed (fetched res ∷ cs) m quiet h = run-Backed cs (step b parse (fetched res) m) quiet h
    run-Backed (handled e ∷ cs) m quiet h =
        run-Backed cs (step b parse (handled e) m) quiet
          (poll-Backed e (take_pending b e m) (take_pending-Backed e m h))
    run-Backed (saved err s ∷ cs) m quiet h =
        run-Backed cs (step b parse (saved err s) m) quiet (inr (ground arith))
    run-Backed (saved_wifi err w ∷ cs) m quiet h =
        run-Backed cs (step b parse (saved_wifi err w) m) quiet h
    run-Backed (cleared err ∷ cs) m quiet h = absurd quiet

-- As long as the settings are not erased: after any sequence of calls on a new manager, whatever
-- the storage, the network, the fetcher and the parser answer, the gate is at Available or above
-- only if there are current settings to copy.
pub available_has_current :
    (b : Build) (parse : Text → ℕ × Settings) (cs : List Call)
    → NoClear cs
    → is_at_least (run b parse cs new_manager).gate.level available ≡ true
    → (run b parse cs new_manager).has_current ≡ true
available_has_current b parse cs quiet h =
    elim (run-Backed b parse cs new_manager quiet (inl refl)) [
      | inl low ↦ ground arith
      | inr there ↦ there
    ]
