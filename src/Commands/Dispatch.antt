-- ===== src/Commands/Dispatch.antt =====
-- How a command reaches a capability or the system:
-- src/Core/Commands/CapabilityCommandTransportDispatcher.cpp, CommandProcessorFactory.cpp,
-- CapabilityCommandProcessor.cpp and SystemCommandProcessor.cpp there, and the look-up of
-- src/Core/Capabilities/CapabilityManager.cpp.
pub mod Routes
use io_tsmart_sys_core.Base.{
  ℕ, ◌+◌, ◌&&◌, ◌||◌, not, Bool, true, false, List, [], ◌∷◌, Option, none, some, Text, codes,
  text_eq, map, if◌then◌else◌,
}
use io_tsmart_sys_core.Commands.{
  CommandType, unknown, capability, system, SystemCommand, unknown_command, reboot, factory_reset,
  update_firmware, DeviceCommand, c_str, get_command_type, get_system_command,
}
use io_tsmart_sys_core.Commands.Parser.{parse_command}

-- `CapabilityCommand`
pub record CapabilityCommand : Type 0 where
  pub capability_name : Text
  pub value : Text
  pub args : List (Text × Text)

-- `CapabilityCommand::getArgValue`
unfoldable pub get_arg_value : Text → List (Text × Text) → Option Text
get_arg_value key [] = none
get_arg_value key ((k, v) ∷ args) = if text_eq k key then some v else get_arg_value key args

-- The capabilities of a manager, over an unknown state of each; `commandable` says whether
-- `asCommandCapability` gives one.
pub record Item (S : Type 0) : Type 0 where
  pub name : Text
  pub commandable : Bool
  pub state : S

-- `restarts` counts the calls of `esp_restart`.
pub record Device (S : Type 0) : Type 0 where
  pub items : List (Item S)
  pub restarts : ℕ

abbrev pub is_system : CommandType → Bool
is_system system = true
is_system _ = false

abbrev pub is_known : SystemCommand → Bool
is_known unknown_command = false
is_known _ = true

module _ {S : Type 0} (apply_command : CapabilityCommand → S → S) where
  -- `getCommandCapabilityByName` with `applyCommand` on what it finds; `none` if it finds nothing.
  unfoldable pub apply_to : Text → CapabilityCommand → List (Item S) → Option (List (Item S))
  apply_to name c [] = none
  apply_to name c (i ∷ is) =
      let rest = apply_to name c is in
      if i.commandable && text_eq i.name name
      then some (record i { state = apply_command c i.state } ∷ is)
      else elim rest [ none ↦ none | some js ↦ some (i ∷ js) ]

  abbrev pub capability_command : DeviceCommand → CapabilityCommand
  capability_command c = record {
    capability_name = c_str c.capability_name;
    value = c_str c.value;
    args = map (λ a. (c_str a.0, c_str a.1)) c.args;
  }

  -- `CapabilityCommandProcessor::process`
  unfoldable pub process_capability : DeviceCommand → Device S → Device S × Bool
  unfolding apply_to
  process_capability c d =
      elim (apply_to (c_str c.capability_name) (capability_command c) d.items) [
        | none ↦ (d, false)
        | some items ↦ (record d { items = items }, true)
      ]

  -- `SystemCommandProcessor::process`
  unfoldable pub process_system : DeviceCommand → Device S → Device S × Bool
  process_system c d = elim (get_system_command c) [
    | reboot ↦ (record d { restarts = d.restarts + 1 }, true)
    | factory_reset ↦ (d, true)
    | update_firmware ↦ (d, true)
    | unknown_command ↦ (d, false)
  ]

  -- `createProcessor` with `process` on what it gives.
  unfoldable pub process_by : CommandType → DeviceCommand → Device S → Device S × Bool
  process_by capability c d = process_capability c d
  process_by system c d = process_system c d
  process_by unknown c d = (d, false)

  unfoldable pub dispatch_command : DeviceCommand → Device S → Device S × Bool
  dispatch_command c d =
      if not (is_system (get_command_type c)) && is_known (get_system_command c)
      then process_by system (record c { type = codes "SYSTEM" }) d
      else process_by (get_command_type c) c d

  -- `dispatchMessage`; a null payload is an empty one.
  unfoldable pub dispatch_message : Text → Device S → Device S × Bool
  dispatch_message payload d = elim (parse_command payload) [
    | none ↦ (d, false)
    | some c ↦ dispatch_command c d
  ]
