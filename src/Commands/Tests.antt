-- ===== src/Commands/Tests.antt =====
-- Commands that reach src/Platform/Espressif/Parsers/EspIdfCommandParser.cpp and the dispatcher of
-- src/Core/Commands/CapabilityCommandTransportDispatcher.cpp.
use io_tsmart_sys_core.Base.{◌≡◌, refl, true, List, [], ◌∷◌, some, Text, codes, arith}
use io_tsmart_sys_core.Commands.{DeviceCommand, get_command_type, get_system_command}
use io_tsmart_sys_core.Commands.Parser.{
  try_extract_string_field, parse_command, find_key_value_start, key_here, after_colon,
  skip_whitespace, string_loop, unescape, parse_json_string, try_extract_args, args_loop, args_step,
}
use io_tsmart_sys_core.Commands.Parser.Fields.{object, lookup, try_extract_string_field-object}
use io_tsmart_sys_core.Commands.Parser.RoundTrip.{written, parse_command-written}
use io_tsmart_sys_core.Commands.Dispatch.{
  CapabilityCommand, Item, Device, dispatch_command, process_capability, is_known,
}
use io_tsmart_sys_core.Commands.Dispatch.Routes.{
  routed, Delivers, dispatch_command_lem, process_capability-Delivers,
}
use io_tsmart_sys_core.Settings.Mqtt.{starts_with}

abbrev lamp_on : DeviceCommand
lamp_on = record {
  capability_name = codes "lamp";
  device_id = codes "a\"b";
  value = codes "on\\";
  type = codes "capability";
  args = [];
}

abbrev lamp_on_fields : List (Text × Text)
lamp_on_fields = (codes "name", codes "x\"y") ∷ (codes "value", codes "on") ∷ []

try_extract_string_field_example :
    try_extract_string_field (codes "value") (object lamp_on_fields)
    ≡ lookup (codes "value") lamp_on_fields
try_extract_string_field_example =
    try_extract_string_field-object b'v' (codes "alue") lamp_on_fields (ground arith) (ground arith)

parse_command_example : parse_command (object (written lamp_on)) ≡ some lamp_on
parse_command_example = parse_command-written lamp_on tt tt tt tt refl

abbrev note_value : CapabilityCommand → Text → Text
note_value c s = c.value

abbrev item : Text → Item Text
item name = record { name = name; commandable = true; state = [] }

abbrev house : Device Text
house = record { items = item (codes "fan") ∷ item (codes "lamp") ∷ []; restarts = 0 }

abbrev reboot_lamp : DeviceCommand
reboot_lamp = record lamp_on { value = codes "reboot" }

dispatch_command_example :
    dispatch_command note_value reboot_lamp house
    ≡ routed note_value
        (is_known (get_system_command reboot_lamp))
        (get_system_command reboot_lamp)
        (get_command_type reboot_lamp)
        reboot_lamp
        house
dispatch_command_example = dispatch_command_lem note_value reboot_lamp house

process_capability_example :
    Delivers note_value lamp_on house (process_capability note_value lamp_on house)
process_capability_example = process_capability-Delivers note_value lamp_on house

-- A value that stands in an argument before the command's own is taken for it.
abbrev arguments_first : Text
arguments_first =
    codes
      "{\"capability_name\":\"lamp\",\"device_id\":\"d\",\"args\":[{\"key\":\"k\",\"value\":\"v\"}],\"value\":\"on\"}"

value_of_argument : try_extract_string_field (codes "value") arguments_first ≡ some (codes "v")
unfolding try_extract_string_field find_key_value_start key_here after_colon skip_whitespace
    string_loop unescape parse_json_string starts_with
value_of_argument = refl

arguments_read : (try_extract_args arguments_first).0 ≡ (codes "k", codes "v") ∷ []
unfolding try_extract_args args_loop args_step try_extract_string_field find_key_value_start
    key_here after_colon skip_whitespace string_loop unescape parse_json_string starts_with
arguments_read = refl
