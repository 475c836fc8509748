-- ===== src/SettingsGate/Tests.antt =====
-- One callback that waits for the settings to be available.
use io_tsmart_sys_core.Base.{◌+◌, ◌≤◌, true, ◌≡◌, refl, List, [], ◌∷◌, some}
use io_tsmart_sys_core.SettingsGate.{
  available, syncing, synced, rank, new, set_level, collected, freed, register, run_when_ready,
}
use io_tsmart_sys_core.SettingsGate.Once.{
  Op, signals, fails, asks, step, run, times_ran, times_waiting, times_accepted, all_early,
  accepted_run_once,
}

abbrev waits_then_ready : List Op
waits_then_ready = asks available (some 7) 1 ∷ fails 4 ∷ signals available 0 ∷ signals synced 0 ∷ []

ran_once : (run waits_then_ready new).ran ≡ record { level = available; cb = 7; ctx = 1 } ∷ []
unfolding run step set_level collected freed register run_when_ready
ran_once = refl

-- A callback that waits for the settings to be synced runs when the syncing begins.
runs_while_syncing :
    (run (asks synced (some 7) 1 ∷ signals syncing 0 ∷ []) new).ran
    ≡ record { level = syncing; cb = 7; ctx = 1 } ∷ []
unfolding run step set_level collected freed register run_when_ready
runs_while_syncing = refl

accepted_run_once_example :
    (times_ran 7 (run waits_then_ready new).ran + times_waiting 7 (run waits_then_ready new).subs
      ≡ times_accepted 7 waits_then_ready new)
    × (all_early (run waits_then_ready new).level (run waits_then_ready new).subs ≡ true)
    × (rank (run waits_then_ready new).level
        ≤ rank (run (signals syncing 0 ∷ []) (run waits_then_ready new)).level)
accepted_run_once_example = accepted_run_once 7 waits_then_ready (signals syncing 0 ∷ [])
