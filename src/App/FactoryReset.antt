-- ===== src/App/FactoryReset.antt =====
-- `FactoryResetButtonController` of src/App/Managers/FactoryResetButtonController.cpp, over the
-- `InputHardwareAdapter` of src/Platform/Arduino/Adapters/InputHardwareAdapter.h.
pub mod Hold
pub mod Once
mod Tests
use io_tsmart_sys_core.Base.{
  ℕ, ◌+◌, ◌&&◌, not, Bool, true, false, bool_eq, Option, none, some, ltb, sub32, if◌then◌else◌,
}
use io_tsmart_sys_core.Settings.Manager.{Manager}
use io_tsmart_sys_core.Settings.Manager.Loop.{clear}

-- `last_state` is `none` for the initial -1; a level is true for HIGH.
pub record InputAdapter : Type 0 where
  pub high_is_on : Bool
  pub last_state : Option Bool
  pub last_state_read_millis : ℕ

abbrev pub new_input : Bool → InputAdapter
new_input high_is_on = record {
  high_is_on = high_is_on;
  last_state = none;
  last_state_read_millis = 0;
}

-- What one pass meets: the pin at its three reads, the clock at its two, and what the storage
-- answers to an erase.
pub record Pass : Type 0 where
  pub tested : Bool
  pub noted : Bool
  pub level : Bool
  pub noted_at : ℕ
  pub now : ℕ
  pub erase_err : ℕ

abbrev pub is_last : Bool → Option Bool → Bool
is_last level none = false
is_last level (some last) = bool_eq level last

-- `InputHardwareAdapter::handle`
unfoldable pub note_input : Pass → InputAdapter → InputAdapter
note_input p a =
    if not (is_last p.tested a.last_state)
    then record a { last_state = some p.noted; last_state_read_millis = p.noted_at }
    else a

-- `digitalActive`
abbrev pub digital_active : Pass → InputAdapter → Bool
digital_active p a = bool_eq p.level a.high_is_on

-- `restarts` counts the calls of `restartSafely`.
pub record Controller : Type 0 where
  pub button : Option InputAdapter
  pub button_was_active : Bool
  pub reset_triggered : Bool
  pub manager : Manager
  pub restarts : ℕ

unfoldable pub release_button : Controller → Controller
release_button c = elim c.button [
  | none ↦ c
  | some _ ↦ record c { button = none; button_was_active = false; reset_triggered = false }
]

-- `has_memory` says whether `malloc` gives the memory of the adapter.
unfoldable pub configure : Bool → Bool → Controller → Controller
unfolding release_button
configure has_memory high_is_on c =
    if not has_memory then release_button c else record (release_button c) {
      button = some (new_input high_is_on);
      button_was_active = false;
      reset_triggered = false;
    }

abbrev pub is_held : Pass → InputAdapter → Bool
is_held p a = ltb 15000 (sub32 p.now a.last_state_read_millis)

-- With the button's adapter after its own pass.
unfoldable pub watch : Pass → InputAdapter → Controller → Controller
watch p a c =
    if not (digital_active p a)
    then record c { button = some a; button_was_active = false; reset_triggered = false }
    else if not c.reset_triggered && is_held p a
    then record c {
      button = some a;
      button_was_active = true;
      reset_triggered = true;
      manager = clear p.erase_err c.manager;
      restarts = c.restarts + 1;
    }
    else record c { button = some a; button_was_active = true }

unfoldable pub handle : Pass → Controller → Controller
unfolding note_input
handle p c = elim c.button [ none ↦ c | some a ↦ watch p (note_input p a) c ]
