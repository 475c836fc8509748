-- ===== src/Transport/Hub/Tests.antt =====
-- A hub (src/Core/Transports/TransportHub.cpp) over the dispatcher of commands.
use io_tsmart_sys_core.Base.{true, false, ◌≡◌, List, [], ◌∷◌, ◌++◌, Text, codes}
use io_tsmart_sys_core.Commands.Dispatch.{CapabilityCommand, Device, dispatch_message}
use io_tsmart_sys_core.Transport.{raw}
use io_tsmart_sys_core.Transport.Hub.{Channel, Entry, Message, Dispatcher, on_message_received}
use io_tsmart_sys_core.Transport.Hub.Channels.{Call, add}
use io_tsmart_sys_core.Transport.Hub.Forward.{targets, refusals, copies, forwarded_per_refusal}

abbrev mqtt : Channel
mqtt = record { id = 1; name_address = 64; forward_raw_messages = true }

abbrev serial : Channel
serial = record { id = 2; name_address = 96; forward_raw_messages = true }

abbrev additions : List Call
additions = add (codes "mqtt") mqtt ∷ add (codes "serial") serial ∷ []

abbrev entries : List Entry
entries =
    record { name = codes "mqtt"; channel = mqtt }
    ∷ record { name = codes "serial"; channel = serial }
    ∷ []

abbrev line : Message
line = record { payload = codes "no command"; retain = false; kind = raw; origin = 96 }

abbrev device : Device Text
device = record { items = []; restarts = 0 }

abbrev keep_state : CapabilityCommand → Text → Text
keep_state c s = s

abbrev commands : List (Dispatcher (Device Text))
commands = (λ (m : Message) (d : Device Text). dispatch_message keep_state m.payload d) ∷ []

forwarded_per_refusal_example :
    (on_message_received (codes "device/state") entries line commands device []).1
    ≡ [] ++ copies (refusals line commands device) (targets (codes "device/state") line entries)
forwarded_per_refusal_example =
    forwarded_per_refusal (codes "device/state") entries line commands device []
