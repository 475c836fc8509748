-- ===== src/App/FactoryReset/Once.antt =====
-- One long press of the button of src/App/Managers/FactoryResetButtonController.cpp.
use io_tsmart_sys_core.Base.{
  inr, ℕ, ◌+◌, ◌<◌, ◌≤◌, not, Bool, true, false, ◌≡◌, refl, ◌∙◌, inl, List, [], ◌∷◌, Option, none,
  some, ltb, if◌then◌else◌, ap, arith, Bool-cases,
}
use io_tsmart_sys_core.Settings.Manager.{Manager}
use io_tsmart_sys_core.Settings.Manager.Loop.{clear}
use io_tsmart_sys_core.App.FactoryReset.{
  InputAdapter, Pass, note_input, is_held, Controller, watch, handle,
}
use io_tsmart_sys_core.App.FactoryReset.Hold.{Rising, run, handle-watch, short_hold_keeps}

-- Every pass reads the pressed button, and the clock rises from `lo` without a wrap.
abbrev pub HeldFrom : InputAdapter → ℕ → List Pass → Type 0
HeldFrom a lo [] = Unit {0}
HeldFrom a lo (p ∷ ps) =
    (p.tested ≡ a.high_is_on)
    × (p.level ≡ a.high_is_on)
    × (lo ≤ p.now)
    × (p.now < 4294967296)
    × HeldFrom a p.now ps

-- The pass reads the released button.
pub record LetGo (a : InputAdapter) (q : Pass) : Type 0 where
  pub tested : q.tested ≡ not a.high_is_on
  pub noted : q.noted ≡ not a.high_is_on
  pub level : q.level ≡ not a.high_is_on

-- The first pass more than 15 seconds after `since`.
unfoldable pub first_late : ℕ → List Pass → Option Pass
first_late since [] = none
first_late since (p ∷ ps) =
    let rest = first_late since ps in if ltb (since + 15000) p.now then some p else rest

-- What is left where the reset came with that pass.
abbrev pub manager_after : Option Pass → Manager → Manager
manager_after none m = m
manager_after (some p) m = clear p.erase_err m

abbrev pub restarts_after : Option Pass → ℕ → ℕ
restarts_after none n = n
restarts_after (some p) n = n + 1

note_input_same :
    (p : Pass) (a : InputAdapter)
    → a.last_state ≡ some a.high_is_on
    → p.tested ≡ a.high_is_on
    → note_input p a ≡ a
unfolding note_input
note_input_same p a e same = ground arith

handle_pressed :
    (p : Pass) (a : InputAdapter) (c : Controller)
    → c.button ≡ some a
    → a.last_state ≡ some a.high_is_on
    → p.tested ≡ a.high_is_on
    → handle p c ≡ watch p a c
handle_pressed p a c there e same =
    handle-watch p a c there ∙ ap (λ b. watch p b c) (note_input_same p a e same)

is_held-late :
    (p : Pass) (a : InputAdapter)
    → a.last_state_read_millis ≤ p.now
    → p.now < 4294967296
    → is_held p a ≡ ltb (a.last_state_read_millis + 15000) p.now
is_held-late p a past small = ground arith

-- The controller goes on with the same button.
record Goes (a : InputAdapter) (done : Bool) (o : Option Pass) (c d : Controller) : Type 0 where
  there : d.button ≡ some a
  triggered : d.reset_triggered ≡ done
  manager : d.manager ≡ manager_after o c.manager
  restarts : d.restarts ≡ restarts_after o c.restarts

watch_triggered :
    (p : Pass) (a : InputAdapter) (c : Controller)
    → p.level ≡ a.high_is_on
    → c.reset_triggered ≡ true
    → Goes a true none c (watch p a c)
unfolding watch
watch_triggered p a c active triggered = ground arith

watch_late :
    (p : Pass) (a : InputAdapter) (c : Controller)
    → p.level ≡ a.high_is_on
    → c.reset_triggered ≡ false
    → is_held p a ≡ true
    → Goes a true (some p) c (watch p a c)
unfolding watch
watch_late p a c active fresh held = ground arith

watch_early :
    (p : Pass) (a : InputAdapter) (c : Controller)
    → p.level ≡ a.high_is_on
    → c.reset_triggered ≡ false
    → is_held p a ≡ false
    → Goes a false none c (watch p a c)
unfolding watch
watch_early p a c active fresh held = ground arith

-- After the reset nothing more happens while the button is held.
run_triggered :
    (ps : List Pass) (lo : ℕ) (a : InputAdapter) (c : Controller)
    → c.button ≡ some a
    → a.last_state ≡ some a.high_is_on
    → c.reset_triggered ≡ true
    → HeldFrom a lo ps
    → Goes a true none c (run ps c)
unfolding run
run_triggered [] lo a c there e triggered h = record {
  there = there;
  triggered = triggered;
  manager = refl;
  restarts = refl;
}
run_triggered (p ∷ ps) lo a c there e triggered h =
    let now = handle_pressed p a c there e h.0 in
    let first = watch_triggered p a c h.1 triggered in
    let rest = run_triggered ps p.now a (watch p a c) first.there e first.triggered h.4 in
    rw now (record {
      there = rest.there;
      triggered = rest.triggered;
      manager = rest.manager ∙ first.manager;
      restarts = rest.restarts ∙ first.restarts;
    })

abbrev is_late : Option Pass → Bool
is_late none = false
is_late (some p) = true

run_pressed :
    (ps : List Pass) (lo : ℕ) (a : InputAdapter) (c : Controller)
    → c.button ≡ some a
    → a.last_state ≡ some a.high_is_on
    → c.reset_triggered ≡ false
    → a.last_state_read_millis ≤ lo
    → HeldFrom a lo ps
    → Goes a
        (is_late (first_late a.last_state_read_millis ps))
        (first_late a.last_state_read_millis ps)
        c
        (run ps c)
unfolding run first_late
run_pressed [] lo a c there e fresh past h = record {
  there = there;
  triggered = fresh;
  manager = refl;
  restarts = refl;
}
run_pressed (p ∷ ps) lo a c there e fresh past h =
    let now = handle_pressed p a c there e h.0 in
    let held = is_held-late p a (omega (arith, past, h.2)) h.3 in
    rw now (elim (Bool-cases (ltb (a.last_state_read_millis + 15000) p.now)) [
      | inl late ↦
          let first = watch_late p a c h.1 fresh (held ∙ late) in
          let rest = run_triggered ps p.now a (watch p a c) first.there e first.triggered h.4 in
          rw late (record {
            there = rest.there;
            triggered = rest.triggered;
            manager = rest.manager ∙ first.manager;
            restarts = rest.restarts ∙ first.restarts;
          })
      | inr early ↦
          let first = watch_early p a c h.1 fresh (held ∙ early) in
          let rest =
            run_pressed ps p.now a (watch p a c) first.there e first.triggered
              (omega (arith, past, h.2)) h.4 in
          rw early (record {
            there = rest.there;
            triggered = rest.triggered;
            manager = rest.manager ∙ ap (manager_after _) first.manager;
            restarts = rest.restarts ∙ ap (restarts_after _) first.restarts;
          })
    ])

-- The adapter after the release.
abbrev released_at : Pass → InputAdapter → InputAdapter
released_at q a = record a {
  last_state = some (not a.high_is_on);
  last_state_read_millis = q.noted_at;
}

note_input_released :
    (q : Pass) (a : InputAdapter)
    → a.last_state ≡ some a.high_is_on
    → LetGo a q
    → note_input q a ≡ released_at q a
unfolding note_input
note_input_released q a e r = ground arith

release-Goes :
    (q : Pass) (a : InputAdapter) (c : Controller)
    → c.button ≡ some a
    → a.last_state ≡ some a.high_is_on
    → LetGo a q
    → Goes (released_at q a) false none c (handle q c)
unfolding watch
release-Goes q a c there e r =
    rw (handle-watch q a c there ∙ ap (λ b. watch q b c) (note_input_released q a e r))
      (ground arith)

-- A press that was noted, with no reset yet: passes that read the button pressed, then one that reads
-- it released, then from any later time on passes within 15 seconds in which the three reads of the
-- pin agree. If the clock does not wrap, the settings are erased, and the device is restarted, exactly
-- once where some pass of the press comes more than 15 seconds after its noted start, in the first
-- such pass; otherwise neither happens.
pub held_resets_once :
    (ps rs : List Pass) (q : Pass) (lo hi : ℕ) (a : InputAdapter) (c : Controller)
    → c.button ≡ some a
    → a.last_state ≡ some a.high_is_on
    → c.reset_triggered ≡ false
    → HeldFrom a a.last_state_read_millis ps
    → LetGo a q
    → q.noted_at ≤ lo
    → hi ≤ lo + 15000
    → hi < 4294967296
    → Rising lo hi rs
    → ((run rs (handle q (run ps c))).manager
        ≡ manager_after (first_late a.last_state_read_millis ps) c.manager)
      × ((run rs (handle q (run ps c))).restarts
          ≡ restarts_after (first_late a.last_state_read_millis ps) c.restarts)
held_resets_once ps rs q lo hi a c there e fresh h r from soon small rising =
    let press = run_pressed ps a.last_state_read_millis a c there e fresh (omega arith) h in
    let release = release-Goes q a (run ps c) press.there e r in
    let rest =
      short_hold_keeps rs lo lo hi (released_at q a) (handle q (run ps c)) release.there (inl refl)
        from (omega arith) soon small rising in
    (rest.0 ∙ release.manager ∙ press.manager, rest.1 ∙ release.restarts ∙ press.restarts)
