-- ===== src/Settings/Manager/Calls/Latched.antt =====
-- The level of the settings gate under src/Core/Settings/SettingsManager.cpp, and the fetches that
-- `handle` requests.
use native.Mathlib.Nat.{add-zero}
use io_tsmart_sys_core.Base.{
  ◌∙◌, ap, ◌+◌, length-append, ℕ, ◌≡◌, refl, ◌⊎◌, inl, inr, List, [], ◌∷◌, Text, length, arith,
  none, Option-cases,
}
use io_tsmart_sys_core.SettingsGate.{Gate, Level, no_level, syncing, set_level}
use io_tsmart_sys_core.Settings.Config.{Settings}
use io_tsmart_sys_core.Settings.Manager.{
  Manager, Request, Pending, apply_pending_update, apply_cancelled, apply_failed, apply_unparsed,
  merge_parsed, store_candidate, keep_current, call_back, reset_api_retry_backoff,
  schedule_api_retry_backoff,
}
use io_tsmart_sys_core.Settings.Manager.Url.{Build}
use io_tsmart_sys_core.Settings.Manager.Loop.{
  poll, take_pending, Env, init, on_fetch_completed, handle, save, save_wifi_only, clear,
  new_manager, sync_from_api, refresh_from_api_async,
}
use io_tsmart_sys_core.Settings.Manager.Calls.{
  Call, inited, refreshed, fetched, handled, saved, saved_wifi, cleared, step, run,
}

set_level_raises : (err : ℕ) (g : Gate) → (set_level syncing err g).level ≡ syncing
unfolding set_level
set_level_raises err g = ground arith

set_level_keeps :
    (level : Level) (err : ℕ) (g : Gate)
    → g.level ≡ syncing
    → (set_level level err g).level ≡ syncing
unfolding set_level
set_level_keeps no_level err g h = ground arith
set_level_keeps _ err g h = ground arith

-- A change of the manager that starts no fetch and keeps the level Syncing.
record IsCalm (m n : Manager) : Type 0 where
  fetches : n.fetches ≡ m.fetches
  level : m.gate.level ≡ syncing → n.gate.level ≡ syncing

apply_pending_update-IsCalm :
    (now err : ℕ) (p : Pending) (m : Manager) → IsCalm m (apply_pending_update now err p m)
unfolding apply_pending_update apply_cancelled apply_failed apply_unparsed merge_parsed
    store_candidate keep_current call_back reset_api_retry_backoff schedule_api_retry_backoff
apply_pending_update-IsCalm now err p m = grind (arith, set_level_keeps)

-- With `n` refreshes asked for by the application: as many fetches were requested, or one more, and
-- the level has risen to Syncing.
abbrev Counted : ℕ → Manager → Type 0
Counted n m = (length m.fetches ≡ n) ⊎ ((length m.fetches ≡ n + 1) × (m.gate.level ≡ syncing))

IsCalm-Counted : {n : ℕ} {m o : Manager} → IsCalm m o → Counted n m → Counted n o
IsCalm-Counted c (inl e) = inl (ap length c.fetches ∙ e)
IsCalm-Counted c (inr (e, l)) = inr (ap length c.fetches ∙ e, c.level l)

init-IsCalm : (err : ℕ) (s : Settings) (m : Manager) → IsCalm m (init err s m)
unfolding init
init-IsCalm err s m = grind (arith, set_level_keeps)

-- The fetches that the call asks for itself.
abbrev refresh : Call → ℕ
refresh (refreshed start_err req) = 1
refresh _ = 0

unfoldable pub refreshes : List Call → ℕ
refreshes [] = 0
refreshes (c ∷ cs) = refresh c + refreshes cs

module _ (b : Build) where
  refresh_from_api_async-fetches :
      (start_err : ℕ) (req : Request) (m : Manager)
      → (length (refresh_from_api_async b start_err req m).fetches ≡ length m.fetches + 1)
        × ((refresh_from_api_async b start_err req m).gate ≡ m.gate)
  unfolding refresh_from_api_async
  refresh_from_api_async-fetches start_err req m = (length-append m.fetches (req ∷ []), refl)

  refresh-Counted :
      (n start_err : ℕ) (req : Request) (m : Manager)
      → Counted n m
      → Counted (n + 1) (refresh_from_api_async b start_err req m)
  refresh-Counted n start_err req m h =
      ground (arith, refresh_from_api_async-fetches start_err req m)

  sync_from_api-Counted :
      (n : ℕ) (e : Env) (m : Manager) → length m.fetches ≡ n → Counted n (sync_from_api b e m)
  unfolding sync_from_api refresh_from_api_async schedule_api_retry_backoff
  sync_from_api-Counted n e m h =
      grind (arith, set_level_keeps, set_level_raises, length-append m.fetches)

  poll-Counted : (n : ℕ) (e : Env) (m : Manager) → Counted n m → Counted n (poll b e m)
  poll-Counted n e m (inl h) = ground (arith, sync_from_api-Counted n e m h)
  poll-Counted n e m (inr (one, l)) = ground arith

  -- At Syncing no pass asks for a fetch.
  poll_latched : (e : Env) (m : Manager) → m.gate.level ≡ syncing → poll b e m ≡ m
  poll_latched e m l = ground arith

  take_pending-IsCalm : (e : Env) (m : Manager) → IsCalm m (take_pending b e m)
  take_pending-IsCalm e m = elim (Option-cases m.pending) [
    | inl gone ↦ rw gone (record { fetches = refl; level = λ l. l })
    | inr (p, there) ↦
        let c = apply_pending_update-IsCalm e.later e.save_err p (record m { pending = none }) in
        rw there (record { fetches = c.fetches; level = c.level })
  ]

  module _ (parse : Text → ℕ × Settings) where
    step-Counted :
        (n : ℕ) (c : Call) (m : Manager) → Counted n m → Counted (n + refresh c) (step b parse c m)
    unfolding step init on_fetch_completed handle save save_wifi_only clear
    step-Counted n (inited err s) m h = IsCalm-Counted (init-IsCalm err s m) (rw (add-zero n) h)
    step-Counted n (refreshed start_err req) m h = refresh-Counted n start_err req m h
    step-Counted n (fetched res) m h = rw (add-zero n) h
    step-Counted n (handled e) m h =
        rw (add-zero n)
          (poll-Counted n e (take_pending b e m) (IsCalm-Counted (take_pending-IsCalm e m) h))
    step-Counted n (saved err s) m h = ground arith
    step-Counted n (saved_wifi err w) m h = rw (add-zero n) h
    step-Counted n (cleared err) m h = ground arith

    run-Counted :
        (n : ℕ) (cs : List Call) (m : Manager)
        → Counted n m
        → Counted (n + refreshes cs) (run b parse cs m)
    unfolding run refreshes
    run-Counted n [] m h = rw (add-zero n) h
    run-Counted n (c ∷ cs) m h =
        let rest = run-Counted (n + refresh c) cs (step b parse c m) (step-Counted n c m h) in
        ground arith

    -- From the level Syncing on, that level stays, and the fetches are those asked for.
    record IsLatched (n : ℕ) (m o : Manager) : Type 0 where
      level : o.gate.level ≡ syncing
      fetches : length o.fetches ≡ length m.fetches + n

    calm-IsLatched : (m o : Manager) → IsCalm m o → m.gate.level ≡ syncing → IsLatched 0 m o
    calm-IsLatched m o c l = record {
      level = c.level l;
      fetches = omega (arith, ap length c.fetches);
    }

    step-IsLatched :
        (c : Call) (m : Manager)
        → m.gate.level ≡ syncing
        → IsLatched (refresh c) m (step b parse c m)
    unfolding step init on_fetch_completed handle save save_wifi_only clear
    step-IsLatched (inited err s) m l = calm-IsLatched m _ (init-IsCalm err s m) l
    step-IsLatched (refreshed start_err req) m l =
        ground (arith, refresh_from_api_async-fetches start_err req m)
    step-IsLatched (fetched res) m l = record { level = l; fetches = omega arith }
    step-IsLatched (handled e) m l =
        let t = calm-IsLatched m _ (take_pending-IsCalm e m) l in
        rw (poll_latched e (take_pending b e m) t.level) t
    step-IsLatched (saved err s) m l = ground arith
    step-IsLatched (saved_wifi err w) m l = record { level = l; fetches = omega arith }
    step-IsLatched (cleared err) m l = ground arith

    run-IsLatched :
        (cs : List Call) (m : Manager)
        → m.gate.level ≡ syncing
        → IsLatched (refreshes cs) m (run b parse cs m)
    unfolding run refreshes
    run-IsLatched [] m l = record { level = l; fetches = omega arith }
    run-IsLatched (c ∷ cs) m l =
        let first = step-IsLatched c m l in
        let rest = run-IsLatched cs (step b parse c m) first.level in
        record { level = rest.level; fetches = omega (arith, first.fetches, rest.fetches) }

-- After any calls on a new manager, whatever the storage, the network and the fetcher answer: either
-- as many fetches were requested as the application itself asked for with `refreshFromApiAsync`; or
-- one more was requested by the synchronisation, the gate is at Syncing, and whatever calls follow,
-- it stays there and the synchronisation requests no other fetch: those that are added are those that
-- the application asks for. So where the fetch of the synchronisation fails, the retry that is then
-- scheduled never comes.
pub synced_once :
    (b : Build) (parse : Text → ℕ × Settings) (cs ds : List Call)
    → (length (run b parse cs new_manager).fetches ≡ refreshes cs)
      ⊎ ((length (run b parse cs new_manager).fetches ≡ refreshes cs + 1)
          × ((run b parse cs new_manager).gate.level ≡ syncing)
          × ((run b parse ds (run b parse cs new_manager)).gate.level ≡ syncing)
          × (length (run b parse ds (run b parse cs new_manager)).fetches
              ≡ length (run b parse cs new_manager).fetches + refreshes ds))
synced_once b parse cs ds = elim (run-Counted b parse 0 cs new_manager (inl refl)) [
  | inl asked ↦ inl (omega (arith, asked))
  | inr (one, l) ↦
      let t = run-IsLatched b parse ds (run b parse cs new_manager) l in
      inr (omega (arith, one), l, t.level, t.fetches)
]
