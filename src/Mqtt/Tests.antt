-- ===== src/Mqtt/Tests.antt =====
-- The service on two clients: one that does what it is told, and one that refuses every
-- configuration.
mod Loop
mod Parts
use io_tsmart_sys_core.Base.{
  text_eq, ◌⊎◌, min, ◌+◌, ◌*◌, ◌^◌, ◌++◌, ◌+◌, ℕ, ◌≤◌, ◌<◌, Bool, true, false, ◌≡◌, ◌≢◌, refl,
  arith, List, [], ◌∷◌, Option, none, some, Text, codes,
}
use io_tsmart_sys_core.Base.Int.{pos}
use io_tsmart_sys_core.Transport.{TransportConfig, MessageView}
use io_tsmart_sys_core.Settings.Mqtt.{
  MqttConfig, MqttSettings, config_is_valid, get_current_profile,
}
use io_tsmart_sys_core.Mqtt.Queue
use io_tsmart_sys_core.Mqtt.Queue.Refine.{
  IsValid, contents, message, enqueue_refines, pop_refines, new-IsValid,
}
use io_tsmart_sys_core.Mqtt.Queue.Fifo.{offer}
use io_tsmart_sys_core.Mqtt.Client.{MqttClient}
use io_tsmart_sys_core.Mqtt.Service.{
  contains, mark_connected, resubscribe_all, drain_queue, subscribe, publish, Service, RetryPolicy,
  online, connecting, backoff_waiting, idle,
}
use io_tsmart_sys_core.Mqtt.Broker.{
  port_or_default, secondary, to_string, build_uri, split_host, or_mqtt, resolve_profile,
  target_profile, select_profile, profile_eq,
}
use io_tsmart_sys_core.Mqtt.Connect.{schedule_retry, prepare, begin, Env, Settings}
use io_tsmart_sys_core.Mqtt.Loop.{
  go_online, handle_connecting, connect, attempt_with, init_client, start_to, choose, start_with,
  start_connect, dispatch, run_client, wake, latch, log_status, handle_gates, handle,
}
use io_tsmart_sys_core.Mqtt.Calls.Link.{run-new-IsSound}
use io_tsmart_sys_core.Mqtt.Calls.Messages.{run-new-IsStored, IsStored, handle_keeps_messages}
use io_tsmart_sys_core.Mqtt.Calls.Refused.{refused_never_falls_back, IsStuck}
use io_tsmart_sys_core.Mqtt.Loop.Gates.{
  handle_closed, handle_waits, handle_comes_online, handle_goes_offline, schedule_retry_due,
}
use io_tsmart_sys_core.Mqtt.Loop.First.{first_attempt_drops_queue}
use io_tsmart_sys_core.Mqtt.Loop.Sound.{IsSound}
use io_tsmart_sys_core.Mqtt.Broker.Choice.{target-current, target_falls_back}
use io_tsmart_sys_core.Mqtt.Broker.Uri.{build_uri_lem, NoSlash, parse_onto}
use io_tsmart_sys_core.Mqtt.Calls.{
  Call, call_begin, call_handle, call_publish, call_subscribe, client_moves, step, run, new,
}

-- Connected from the start on, and sends all that it is given.
pub record Link : Type 0 where
  pub up : Bool
  pub sent : ℕ

abbrev pub willing : MqttClient
willing = record {
  State = Link;
  begin = λ cfg l. (true, l);
  start = λ l. record l { up = true };
  stop = λ l. record l { up = false };
  handle = λ l. l;
  is_connected = λ l. l.up;
  publish = λ topic payload retain l. (true, record l { sent = l.sent + 1 });
  republish = λ msg l. (true, record l { sent = l.sent + 1 });
  subscribe = λ topic l. (true, l);
}

abbrev pub refusing : MqttClient
refusing = record willing { begin = λ cfg l. (false, l) }

abbrev pub down : Link
down = record { up = false; sent = 0 }

abbrev pub no_config : TransportConfig
no_config = record {
  uri = none;
  client_id = none;
  username = none;
  password = none;
  subscribe_topic = some (codes "device/a/command");
  publish_topic = none;
  keep_alive_sec = 60;
  clean_session = true;
}

abbrev pub default_policy : RetryPolicy
default_policy = record {
  backoff = record {
    initial_backoff_ms = 500;
    max_backoff_ms = 30000;
    jitter_ms = 250;
    max_fast_retries = 5;
  };
  clear_queue_on_reconnect = false;
}

abbrev pub broker : Text → MqttConfig
broker host = record {
  host = host;
  port = pos 1883;
  user = [];
  password = [];
  protocol = codes "mqtt";
  ttl = pos 60;
  keep_alive_sec = 60;
  clean_session = true;
}

abbrev pub two_brokers : MqttSettings
two_brokers = record {
  primary = broker (codes "a.example");
  secondary = broker (codes "b.example");
  tertiary = broker [];
  announce_topic = codes "announce";
  command_topic = codes "device/{device_id}/command";
  notify_topic = codes "notify";
  profile = codes "primary";
}

abbrev pub home : Settings
home = record { mqtt = two_brokers; client_id = some (codes "esp") }

abbrev pub at : ℕ → Env
at now = record {
  now = now;
  later = now;
  random = 7;
  network_ready = true;
  network_still_ready = true;
  settings_available = true;
  settings = some home;
}

abbrev pub offline_at : ℕ → Env
offline_at now = record (at now) { network_ready = false }

abbrev pub calls : {C : MqttClient} → List (Call C)
calls =
    call_begin no_config default_policy (at 10)
    ∷ call_publish (some (codes "t")) (1 ∷ 2 ∷ []) false
    ∷ call_handle (at 20)
    ∷ call_handle (at 30)
    ∷ []

-- The first attempt begins with the first call of `handle`; the second finds the client connected.
goes_online : (run willing calls (new willing no_config default_policy down)).state ≡ online
unfolding run step new handle begin prepare publish subscribe handle_gates log_status latch wake
    run_client dispatch start_connect start_with choose start_to init_client attempt_with connect
    handle_connecting go_online drain_queue resubscribe_all mark_connected Queue.new Queue.clear
    build_uri split_host or_mqtt resolve_profile target_profile select_profile text_eq profile_eq
    contains
goes_online = refl

-- The queue with one waiting message.
abbrev pub one_waiting : Queue.Queue
one_waiting = (Queue.enqueue (some (codes "t")) (1 ∷ 2 ∷ []) false Queue.new).0

pub one_waiting-IsValid : IsValid one_waiting
one_waiting-IsValid =
    (enqueue_refines (some (codes "t")) (1 ∷ 2 ∷ []) false Queue.new new-IsValid.0).0

pub one_waiting_count : one_waiting.count ≡ 1
unfolding Queue.enqueue Queue.new
one_waiting_count = refl

-- A service that has been initialised and has one message waiting.
abbrev pub started : Service willing
started = record (new willing no_config default_policy down) {
  has_time = true;
  settings_ready = true;
  client_initialized = true;
  state = backoff_waiting;
  next_action_at_ms = 100;
  queue = one_waiting;
}

-- A service on the refusing client before its first attempt.
abbrev pub waking : Service refusing
waking = record (new refusing no_config default_policy down) {
  has_time = true;
  settings_ready = true;
  state = backoff_waiting;
  next_action_at_ms = 100;
  queue = one_waiting;
}

abbrev pub calling : Service willing
calling = record started { state = connecting; client = record { up = true; sent = 0 } }

abbrev pub talking : Service willing
talking = record started { state = online; mqtt_connected = true }
