-- ===== src/Mqtt/Tests/Loop.antt =====
-- The theorems on calls, at the services of the tests.
use io_tsmart_sys_core.Base.{text_eq, ◌⊎◌, ◌≡◌, refl, arith, false, List, [], ◌∷◌, ◌++◌}
use io_tsmart_sys_core.Mqtt.Queue
use io_tsmart_sys_core.Mqtt.Queue.Refine.{contents, message}
use io_tsmart_sys_core.Mqtt.Broker.{
  build_uri, split_host, or_mqtt, resolve_profile, target_profile, select_profile, profile_eq,
}
use io_tsmart_sys_core.Mqtt.Service.{
  contains, mark_connected, resubscribe_all, drain_queue, subscribe, publish, online,
}
use io_tsmart_sys_core.Mqtt.Connect.{prepare, begin}
use io_tsmart_sys_core.Mqtt.Loop.{
  go_online, handle_connecting, handle_online, connect, attempt_with, init_client, start_to, choose,
  start_with, start_connect, dispatch, run_client, wake, latch, log_status, handle_gates, handle,
}
use io_tsmart_sys_core.Mqtt.Calls.Link.{run-new-IsSound, cleared_since}
use io_tsmart_sys_core.Mqtt.Calls.Messages.{run-new-IsStored, IsStored, handle_keeps_messages}
use io_tsmart_sys_core.Mqtt.Calls.Refused.{refused_never_falls_back, IsStuck}
use io_tsmart_sys_core.Mqtt.Loop.First.{first_attempt_drops_queue}
use io_tsmart_sys_core.Mqtt.Loop.Sound.{IsSound}
use io_tsmart_sys_core.Mqtt.Calls.{Call, call_handle, gate_cleared, step, run, new}
use io_tsmart_sys_core.Mqtt.Tests.{
  willing, refusing, down, no_config, default_policy, home, at, calls, one_waiting,
  one_waiting-IsValid, waking, talking,
}

-- The calls that lead online, and the Wi-Fi manager clears the bit between the last two.
abbrev interrupted : List (Call willing)
interrupted = calls ++ gate_cleared ∷ call_handle (at 40) ∷ []

run-new-IsSound_example :
    IsSound
      (cleared_since willing interrupted (new willing no_config default_policy down) false)
      (run willing interrupted (new willing no_config default_policy down))
run-new-IsSound_example = run-new-IsSound willing interrupted no_config default_policy down

-- The service stays online without the bit.
online_without_bit :
    ((run willing interrupted (new willing no_config default_policy down)).state ≡ online)
    × ((run willing interrupted (new willing no_config default_policy down)).mqtt_connected ≡ false)
unfolding run step new handle begin prepare publish subscribe handle_gates log_status latch wake
    run_client dispatch start_connect start_with choose start_to init_client attempt_with connect
    handle_connecting handle_online go_online drain_queue resubscribe_all mark_connected Queue.new
    Queue.clear build_uri split_host or_mqtt resolve_profile target_profile select_profile text_eq
    profile_eq contains
online_without_bit = (refl, refl)

run-new-IsStored_example :
    IsStored
      (run willing calls (new willing no_config default_policy down)).queue
      (run willing calls (new willing no_config default_policy down)).subs
run-new-IsStored_example = run-new-IsStored willing calls no_config default_policy down

refused_never_falls_back_example :
    IsStuck (run refusing calls (new refusing no_config default_policy down))
refused_never_falls_back_example =
    refused_never_falls_back refusing (λ cfg l. refl) calls no_config default_policy down

handle_keeps_messages_example :
    (contents (handle willing (at 120) talking).queue ≡ contents talking.queue)
    ⊎ (contents talking.queue
        ≡ message (Queue.front talking.queue) ∷ contents (handle willing (at 120) talking).queue)
unfolding new
handle_keeps_messages_example =
    handle_keeps_messages willing (at 120) talking one_waiting-IsValid refl

first_attempt_drops_queue_example :
    (handle refusing (at 120) waking).queue ≡ Queue.clear one_waiting
unfolding build_uri split_host or_mqtt resolve_profile target_profile select_profile text_eq new
first_attempt_drops_queue_example =
    first_attempt_drops_queue refusing (at 120) home waking refl refl refl refl (λ e. cc) refl
      (omega arith)
