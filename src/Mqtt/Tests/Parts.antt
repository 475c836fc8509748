-- ===== src/Mqtt/Tests/Parts.antt =====
-- The theorems on the queue and the broker, at concrete inputs.
use io_tsmart_sys_core.Base.{true, ◌≡◌, arith, [], ◌∷◌, some, codes}
use io_tsmart_sys_core.Settings.Mqtt.{MqttConfig}
use io_tsmart_sys_core.Mqtt.Queue
use io_tsmart_sys_core.Mqtt.Queue.Refine.{IsValid, contents, message, enqueue_refines, pop_refines}
use io_tsmart_sys_core.Mqtt.Queue.Fifo.{offer}
use io_tsmart_sys_core.Mqtt.Broker.Uri.{NoSlash}
use io_tsmart_sys_core.Mqtt.Tests.{broker, one_waiting, one_waiting-IsValid, one_waiting_count}

enqueue_refines_example :
    IsValid (Queue.enqueue (some (codes "u")) (3 ∷ []) true one_waiting).0
    × ((
      contents (Queue.enqueue (some (codes "u")) (3 ∷ []) true one_waiting).0,
      (Queue.enqueue (some (codes "u")) (3 ∷ []) true one_waiting).1,
    )
        ≡ offer (some (codes "u")) (3 ∷ []) true (contents one_waiting))
enqueue_refines_example =
    enqueue_refines (some (codes "u")) (3 ∷ []) true one_waiting one_waiting-IsValid

pop_refines_example :
    IsValid (Queue.pop one_waiting)
    × (contents one_waiting ≡ message (Queue.front one_waiting) ∷ contents (Queue.pop one_waiting))
pop_refines_example = pop_refines one_waiting one_waiting-IsValid (omega (arith, one_waiting_count))

no_slash : NoSlash (codes "mqtt.example")
no_slash = ground arith

abbrev hosted : MqttConfig
hosted = broker (codes "mqtt.example/ws")
