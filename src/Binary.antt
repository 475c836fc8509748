-- ===== src/Binary.antt =====
-- `BinaryCommandCapability` of src/Core/Capabilities/CapabilityHelpers.h, over
-- src/Contracts/Capabilities/ICommandCapability.h.
pub mod Led
pub mod Stable
pub mod Wants
pub mod Nvs
mod Tests
use io_tsmart_sys_core.Base.{
  is_empty, bool_eq, Bool, true, false, not, ◌&&◌, ◌||◌, List, [], ◌∷◌, Option, none, some, Text,
  text_eq, if◌then◌else◌,
}
use io_tsmart_sys_core.Capability.{Capability, update_state}
use io_tsmart_sys_core.Hardware.{HardwareAdapter, Interpreter, StateProvider, toggle_command}

-- `storage` is what `stateStorage()` finds, if there is one.
pub record Binary (A : HardwareAdapter) (P : StateProvider) : Type 0 where
  pub capability : Capability
  pub adapter : A.State
  pub interpreter : Option Interpreter
  pub storage : Option P.State
  pub off_value : Text
  pub on_value : Text
  pub transient_cycle : Bool
  pub has_stable_request : Bool
  pub last_stable_is_on : Bool

module _ (A : HardwareAdapter) (P : StateProvider) where
  abbrev pub is_on : Binary A P → Bool
  is_on b = text_eq b.capability.value b.on_value

  -- On or off, and not a transitory value.
  abbrev pub is_semantic : Binary A P → Text → Bool
  is_semantic b value = text_eq value b.on_value || text_eq value b.off_value

  unfoldable pub read_confirmed_state : Binary A P → Text
  read_confirmed_state b = elim b.interpreter [
    | none ↦ A.get_state_value b.adapter
    | some i ↦ i.interpret_state (A.get_state b.adapter)
  ]

  -- The command as the adapter gets it, with its answer.
  unfoldable pub command_hardware : Text → Binary A P → Bool × A.State
  command_hardware value b = elim b.interpreter [
    | none ↦ A.apply_value value b.adapter
    | some i ↦ A.apply_command (i.interpret_command value) b.adapter
  ]

  -- `ICommandCapability::applyCommand`, which drops the answer.
  unfoldable pub apply_command : Text → Binary A P → Binary A P
  apply_command value b = record b { adapter = (command_hardware value b).1 }

  abbrev pub toggle : Binary A P → Binary A P
  toggle b = apply_command toggle_command b

  abbrev pub turn_on : Binary A P → Binary A P
  turn_on b = apply_command b.on_value b

  abbrev pub turn_off : Binary A P → Binary A P
  turn_off b = apply_command b.off_value b

  abbrev pub publish_value : Text → Binary A P → Binary A P
  publish_value value b = record b { capability = update_state b.capability value }

  unfoldable pub seed_stable_baseline : Text → Binary A P → Binary A P
  seed_stable_baseline value b =
      if is_semantic b value
      then record b { has_stable_request = true; last_stable_is_on = text_eq value b.on_value }
      else b

  unfoldable pub save_to : Bool → Binary A P → Option P.State → Option P.State
  save_to new_is_on b none = none
  save_to new_is_on b (some s) =
      if is_empty b.capability.capability_name
      then some s
      else some (P.request_save b.capability.capability_name b.capability.type new_is_on s)

  unfoldable pub request_persist_if_stable : Text → Binary A P → Binary A P
  unfolding save_to
  request_persist_if_stable value b =
      let new_is_on = text_eq value b.on_value in
      if not (is_semantic b value)
      then b
      else if b.transient_cycle
      then b
      else if b.has_stable_request && bool_eq b.last_stable_is_on new_is_on
      then b
      else record b {
        has_stable_request = true;
        last_stable_is_on = new_is_on;
        storage = save_to new_is_on b b.storage;
      }

  unfoldable pub sync_from_hardware : Binary A P → Binary A P
  sync_from_hardware b =
      let value = read_confirmed_state b in
      if text_eq value b.capability.value
      then b
      else request_persist_if_stable value (publish_value value b)

  abbrev pub confirm_stable_state : Binary A P → Binary A P
  confirm_stable_state b = request_persist_if_stable b.capability.value b

  -- The default flow at the end of `restoreFromStorage`.
  unfoldable pub adopt_hardware : Binary A P → Binary A P
  adopt_hardware b =
      let value = read_confirmed_state b in seed_stable_baseline value (publish_value value b)

  unfoldable pub stored_state : Binary A P → Option P.State → Option Bool
  stored_state b none = none
  stored_state b (some s) =
      if is_empty b.capability.capability_name
      then none
      else P.try_get b.capability.capability_name b.capability.type s

  -- A stored state is commanded, and adopted only if the adapter accepts it and reads it back.
  unfoldable pub restore_to : Bool → Binary A P → Binary A P
  unfolding adopt_hardware
  restore_to restored_on b =
      let target = if restored_on then b.on_value else b.off_value in
      let (accepted, adapter) = command_hardware target b in
      let told = record b { adapter = adapter } in
      if accepted && text_eq (read_confirmed_state told) target
      then seed_stable_baseline target (publish_value target told)
      else adopt_hardware told

  unfoldable pub restore_from_storage : Binary A P → Binary A P
  unfolding adopt_hardware stored_state restore_to
  restore_from_storage b = elim (stored_state b b.storage) [
    | none ↦ adopt_hardware b
    | some restored_on ↦ restore_to restored_on b
  ]

  unfoldable pub setup : Binary A P → Binary A P
  unfolding restore_from_storage
  setup b = restore_from_storage (record b { adapter = A.setup b.adapter })

  unfoldable pub handle : Binary A P → Binary A P
  unfolding sync_from_hardware
  handle b = sync_from_hardware b
