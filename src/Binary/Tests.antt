-- ===== src/Binary/Tests.antt =====
-- A lamp on an adapter that keeps the last of on and off, with the NVS provider as its storage.
use io_tsmart_sys_core.Base.{true, false, ◌≡◌, refl, arith, List, [], ◌∷◌, none, some, Text}
use io_tsmart_sys_core.Hardware.{HardwareAdapter, state_on, state_off}
use io_tsmart_sys_core.Binary.{Binary, setup, handle, read_confirmed_state}
use io_tsmart_sys_core.Binary.Wants.{Action, commands, handles, hardware_moves, run}
use io_tsmart_sys_core.Binary.Nvs.Desired.{Settled, desired_is_stable}
use io_tsmart_sys_core.BinaryState.Records.{find_record_index}
use io_tsmart_sys_core.BinaryState.Tests as Store
use io_tsmart_sys_core.BinaryState.Store.{Provider, try_get, place, first_free}
use io_tsmart_sys_core.BinaryState.Drain.{drain, writes_fine}
use io_tsmart_sys_core.Binary.Nvs.{nvs, switched_on_is_committed}

abbrev relay : HardwareAdapter
relay = record {
  State = Text;
  setup = λ s. s;
  apply_command = λ v s. (true, v);
  apply_value = λ v s. (true, v);
  get_state_value = λ s. s;
  get_state = λ s. s;
}

-- The lamp on the NVS provider, switched on by its hardware.
abbrev stored_lamp : Binary relay nvs
stored_lamp = record {
  capability = record {
    capability_name = Store.lamp;
    type = Store.kind;
    value = state_off;
    has_sink = true;
    changed = false;
    events = [];
  };
  adapter = state_on;
  interpreter = none;
  storage = some Store.ready;
  off_value = state_off;
  on_value = state_on;
  transient_cycle = false;
  has_stable_request = true;
  last_stable_is_on = false;
}

-- The lamp is found on, switches itself off, and is switched on by a command.
abbrev switched : List (Action relay)
switched = handles ∷ hardware_moves state_off ∷ handles ∷ commands state_on ∷ handles ∷ []

desired_is_stable_example :
    Settled Store.lamp Store.kind Store.ready (run relay nvs switched (setup relay nvs stored_lamp))
unfolding place find_record_index first_free
desired_is_stable_example =
    desired_is_stable relay switched stored_lamp Store.ready refl refl
      (record {
        name_NoZero = Store.lamp-NoZero;
        type_NoZero = Store.kind-NoZero;
        name_some = omega arith;
        type_some = omega arith;
        name_len = omega arith;
        type_len = omega arith;
      })
      refl

confirmed_on : read_confirmed_state relay nvs stored_lamp ≡ state_on
unfolding read_confirmed_state
confirmed_on = refl

switched_on_is_committed_example :
    (q : Provider) × ((handle relay nvs stored_lamp).storage ≡ some q)
    × (try_get (some Store.lamp) (some Store.kind) (drain writes_fine q) ≡ some true)
switched_on_is_committed_example =
    switched_on_is_committed relay stored_lamp Store.ready 0 refl refl refl confirmed_on (λ e. cc)
      Store.lamp-NoZero Store.kind-NoZero (omega arith) (omega arith) (omega arith) (omega arith)
      refl refl refl refl Store.first_slot
