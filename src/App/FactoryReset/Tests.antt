-- ===== src/App/FactoryReset/Tests.antt =====
-- Presses of the button of src/App/Managers/FactoryResetButtonController.cpp.
use io_tsmart_sys_core.Base.{ℕ, ◌+◌, Bool, true, false, ◌≡◌, refl, inl, arith, List, [], ◌∷◌, some}
use io_tsmart_sys_core.Settings.Manager.Loop.{new_manager, clear}
use io_tsmart_sys_core.App.FactoryReset.{InputAdapter, Pass, Controller, handle, note_input, watch}
use io_tsmart_sys_core.App.FactoryReset.Hold.{run, short_hold_keeps}
use io_tsmart_sys_core.App.FactoryReset.Once.{first_late, held_resets_once}

-- The button pulls the pin low.
abbrev released : InputAdapter
released = record { high_is_on = false; last_state = some true; last_state_read_millis = 100 }

abbrev controller : Controller
controller = record {
  button = some released;
  button_was_active = false;
  reset_triggered = false;
  manager = new_manager;
  restarts = 0;
}

abbrev pass : Bool → ℕ → Pass
pass level at = record {
  tested = level;
  noted = level;
  level = level;
  noted_at = at;
  now = at + 1;
  erase_err = 0;
}

short_hold_keeps_example :
    ((run (pass true 40000 ∷ pass false 40100 ∷ pass false 54900 ∷ []) controller).manager
      ≡ new_manager)
    × ((run (pass true 40000 ∷ pass false 40100 ∷ pass false 54900 ∷ []) controller).restarts ≡ 0)
short_hold_keeps_example =
    short_hold_keeps (pass true 40000 ∷ pass false 40100 ∷ pass false 54900 ∷ []) 40000 40000 55000
      released controller refl (inl refl) (omega arith) (omega arith) (omega arith) (omega arith)
      (ground arith)

-- The button is held from 100 on, released at 30000, and pressed for a moment at 90100.
abbrev pressed : InputAdapter
pressed = record released { last_state = some false }

abbrev watching : Controller
watching = record controller { button = some pressed }

abbrev long_press : List Pass
long_press = pass false 9000 ∷ pass false 15200 ∷ pass false 20000 ∷ []

abbrev short_press : List Pass
short_press = pass true 90000 ∷ pass false 90100 ∷ pass true 90200 ∷ []

held_resets_once_example :
    ((run short_press (handle (pass true 30000) (run long_press watching))).manager
      ≡ clear 0 new_manager)
    × ((run short_press (handle (pass true 30000) (run long_press watching))).restarts ≡ 1)
unfolding first_late
held_resets_once_example =
    held_resets_once long_press short_press (pass true 30000) 90000 95000 pressed watching refl refl
      refl (ground arith) (record { tested = refl; noted = refl; level = refl }) (omega arith)
      (omega arith) (omega arith) (ground arith)

-- The button is pressed between the second and the third read of a pass, and the device is reset at
-- once: it is only the last read that must be active.
abbrev pressed_between : Pass
pressed_between = record (pass true 40000) { level = false }

last_read_resets : (handle pressed_between controller).restarts ≡ 1
unfolding handle note_input watch
last_read_resets = refl
