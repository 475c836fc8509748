-- ===== src/Hardware.antt =====
-- What the capabilities use of the hardware: src/Contracts/Adapters/ICommandHardwareAdapter.h and
-- src/Contracts/Interpreters/IHardwareCommandInterpreter.h, with the valve's interpreter of
-- src/Platform/Arduino/Interpreters. The adapters are a parameter with a state of their own, of which
-- nothing is assumed here.
use io_tsmart_sys_core.Base.{Bool, Text, Option, codes, text_eq, if◌then◌else◌}

-- `applyCommand` has an overload for a hardware command and one for a C string; each says whether
-- the command is accepted. Commands and states are their texts.
pub record HardwareAdapter : Type 1 where
  pub State : Type 0
  pub setup : State → State
  pub apply_command : Text → State → Bool × State
  pub apply_value : Text → State → Bool × State
  pub get_state_value : State → Text
  pub get_state : State → Text

-- The interpreters of the sources read only the value of a command.
pub record Interpreter : Type 0 where
  pub interpret_command : Text → Text
  pub interpret_state : Text → Text

abbrev pub state_on : Text
state_on = codes "on"

abbrev pub state_off : Text
state_off = codes "off"

abbrev pub toggle_command : Text
toggle_command = codes "toggle"

abbrev pub valve_open : Text
valve_open = codes "open"

abbrev pub valve_closed : Text
valve_closed = codes "closed"

unfoldable pub valve_command : Text → Text
valve_command value =
    if text_eq value valve_open
    then state_on
    else if text_eq value valve_closed
    then state_off
    else if text_eq value toggle_command
    then toggle_command
    else codes ""

unfoldable pub valve_state : Text → Text
valve_state value =
    if text_eq value state_on
    then valve_open
    else if text_eq value state_off
    then valve_closed
    else codes "unknown"

abbrev pub valve_interpreter : Interpreter
valve_interpreter = record { interpret_command = valve_command; interpret_state = valve_state }

-- `IBinaryCapabilityStateProvider`, as a capability uses it: whether a request is accepted is only
-- logged.
pub record StateProvider : Type 1 where
  pub State : Type 0
  pub try_get : Text → Text → State → Option Bool
  pub request_save : Text → Text → Bool → State → State
