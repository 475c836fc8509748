-- ===== src/Mqtt/Calls.antt =====
-- The calls that the rest of the program makes to a `MqttService`, from its construction on, and
-- what the rest of the program does to the gate's bit of the service.
pub mod Link
pub mod Messages
pub mod Refused
use io_tsmart_sys_core.Base.{ℕ, Bool, false, List, [], ◌∷◌, Option, none, Text}
use io_tsmart_sys_core.Transport.{TransportConfig, MessageView}
use io_tsmart_sys_core.Mqtt.Queue
use io_tsmart_sys_core.Mqtt.Client.{MqttClient}
use io_tsmart_sys_core.Mqtt.Service.{Service, idle, RetryPolicy, publish, republish, subscribe}
use io_tsmart_sys_core.Mqtt.Connect.{Env, begin, no_reconnect_stats, on_settings_ready}
use io_tsmart_sys_core.Mqtt.Loop.{handle, stop, on_disconnected}

module _ (C : MqttClient) where
  -- The members as the constructor leaves them, on a client, a configuration and a policy.
  unfoldable pub new : TransportConfig → RetryPolicy → C.State → Service C
  new cfg policy client = record {
    client = client;
    mqtt_connected = false;
    settings_ready = false;
    last_settings_ready = false;
    has_time = false;
    cfg = cfg;
    active_profile = none;
    policy = policy;
    state = idle;
    attempt = 0;
    next_action_at_ms = 0;
    last_network_ready = false;
    last_status_log_at_ms = 0;
    client_initialized = false;
    fallback_broker_active = false;
    client_disconnect_observed = false;
    subs = [];
    queue = Queue.new;
    reconnect_stats = no_reconnect_stats;
    offline_since_ms = 0;
  }

  -- One call. What the client does on its own between two calls is `client_moves`; that another
  -- component, such as the Wi-Fi manager, clears the bit MQTT_CONNECTED of the gate, `gate_cleared`.
  pub data Call : Type 0 where
    call_begin : TransportConfig → RetryPolicy → Env → Call
    call_handle : Env → Call
    call_stop : ℕ → Call
    call_publish : Option Text → List ℕ → Bool → Call
    call_republish : MessageView → Call
    call_subscribe : Option Text → Call
    call_on_disconnected : Call
    call_on_settings_ready : ℕ → Call
    client_moves : C.State → Call
    gate_cleared : Call

  unfoldable pub step : Call → Service C → Service C
  step (call_begin cfg policy e) s = (begin C cfg policy e s).0
  step (call_handle e) s = handle C e s
  step (call_stop now) s = stop C now s
  step (call_publish topic payload retain) s = (publish C topic payload retain s).0
  step (call_republish msg) s = (republish C msg s).0
  step (call_subscribe topic) s = (subscribe C topic s).0
  step call_on_disconnected s = on_disconnected C s
  step (call_on_settings_ready now) s = on_settings_ready C now s
  step (client_moves client) s = record s { client = client }
  step gate_cleared s = record s { mqtt_connected = false }

  unfoldable pub run : List Call → Service C → Service C
  run [] s = s
  run (c ∷ cs) s = run cs (step c s)
