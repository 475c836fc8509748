-- ===== src/Mqtt/Loop.antt =====
-- `MqttService::startConnect`, `handle` and `stop`, over the pieces of `Mqtt/Connect`.
pub mod Sound
pub mod Stored
pub mod Gates
pub mod First
use io_tsmart_sys_core.Base.{
  Option, ℕ, ◌+◌, Bool, true, false, not, ◌&&◌, [], ◌∷◌, none, some, Text, leb, ◌==◌, if◌then◌else◌,
  u32, sub32,
}
use io_tsmart_sys_core.Transport.{TransportConfig}
use io_tsmart_sys_core.Settings.Mqtt.{MqttConfig}
use io_tsmart_sys_core.Mqtt.Broker.{
  profile_eq, select_profile, resolve_profile, target_profile, build_uri,
}
use io_tsmart_sys_core.Mqtt.Client.{MqttClient}
use io_tsmart_sys_core.Mqtt.Service.{
  Service, State, idle, connecting, online, backoff_waiting, network_gate_closed, connect_timeout,
  connection_lost, client_init_failed, mark_disconnected, mark_connected, drain_queue,
  resubscribe_all,
}
use io_tsmart_sys_core.Mqtt.Connect.{
  Env, Settings, c_string, is_idle, is_active, clock, begin, schedule_retry,
}

-- The configuration of an attempt, at the profile and the URI chosen for it.
abbrev pub configured : Settings → MqttConfig → Text → TransportConfig → TransportConfig
configured settings profile uri cfg = record cfg {
  uri = c_string uri;
  username = c_string profile.user;
  password = c_string profile.password;
  client_id = elim settings.client_id [ none ↦ none | some t ↦ c_string t ];
  keep_alive_sec = profile.keep_alive_sec;
  clean_session = profile.clean_session;
}

module _ (C : MqttClient) where
  abbrev go_idle : Service C → Service C
  go_idle s = record s { state = idle; next_action_at_ms = 0 }

  unfoldable pub init_failed : Env → Service C → Service C
  init_failed e s =
      schedule_retry C e (mark_disconnected C client_init_failed (clock C s e.later) s)

  -- The first attempt runs the whole of `begin`; later ones only hand the client its configuration.
  unfoldable pub init_client : Env → Service C → Service C × Bool
  init_client e s =
      let (begun, ok) = begin C s.cfg s.policy e s in
      let (accepted, client) = C.begin s.cfg s.client in
      if s.client_initialized
      then (record s { client = client }, accepted)
      else (if ok then (record begun { client_initialized = true }, true) else (begun, false))

  -- The last part, behind the initialisation of the client.
  unfoldable pub connect : Env → Service C → Service C
  connect e s =
      if e.network_still_ready
      then record s {
        state = connecting;
        next_action_at_ms = u32 (clock C s e.later + 15000);
        client = C.start s.client;
      }
      else record s {
        state = backoff_waiting;
        next_action_at_ms = if s.has_time then u32 (e.later + 1000) else 1000;
      }

  unfoldable pub attempt_with : Env → Service C × Bool → Service C
  attempt_with e (s, ok) = if ok then connect e s else init_failed e s

  -- The profile is noted also where there is no host to connect to.
  unfoldable pub choose : Settings → Service C → Service C
  choose settings s =
      let target = target_profile settings.mqtt s.attempt in
      record s {
        fallback_broker_active = not (profile_eq target (select_profile settings.mqtt));
        active_profile = some target;
      }

  unfoldable pub start_to : Env → Settings → MqttConfig → Text → Service C → Service C
  start_to e settings profile [] s = go_idle s
  start_to e settings profile (c ∷ cs) s =
      attempt_with e (init_client e (record s { cfg = configured settings profile (c ∷ cs) s.cfg }))

  unfoldable pub start_with : Env → Option Settings → Service C → Service C
  start_with e none s = go_idle s
  start_with e (some settings) s =
      let profile = resolve_profile settings.mqtt (target_profile settings.mqtt s.attempt) in
      start_to e settings profile (build_uri profile) (choose settings s)

  unfoldable pub start_connect : Env → Service C → Service C
  start_connect e s = if s.settings_ready then start_with e e.settings s else go_idle s

  unfoldable pub go_online : ℕ → Service C → Service C
  go_online now s =
      let t = record (mark_connected C now s) {
        state = online;
        attempt = 0;
        mqtt_connected = true;
      } in
      drain_queue C (resubscribe_all C t)

  unfoldable pub time_out : Env → ℕ → Service C → Service C
  time_out e now s =
      let t = mark_disconnected C connect_timeout now s in
      let r = t.reconnect_stats in
      let counted = record r { connect_timeouts_total = u32 (r.connect_timeouts_total + 1) } in
      schedule_retry C e (record t { reconnect_stats = counted })

  unfoldable pub lose_connection : Env → ℕ → Service C → Service C
  lose_connection e now s =
      schedule_retry C e
        (record (mark_disconnected C connection_lost now s) { mqtt_connected = false })

  unfoldable pub handle_connecting : Env → ℕ → Service C → Service C
  handle_connecting e now s =
      if C.is_connected s.client
      then go_online now s
      else if not (s.next_action_at_ms == 0) && leb s.next_action_at_ms now
      then time_out e now s
      else s

  unfoldable pub handle_online : Env → ℕ → Service C → Service C
  handle_online e now s =
      if C.is_connected s.client then drain_queue C s else lose_connection e now s

  -- The `switch` of `handle`.
  unfoldable pub dispatch : State → Env → ℕ → Service C → Service C
  dispatch idle e now s = s
  dispatch connecting e now s = handle_connecting e now s
  dispatch backoff_waiting e now s = if leb s.next_action_at_ms now then start_connect e s else s
  dispatch online e now s = handle_online e now s

  abbrev with_client : C.State → Service C → Service C
  with_client client s = record s { client = client }

  -- Both gates open: an idle service gets a connection at once.
  unfoldable pub wake : ℕ → Service C → Service C
  wake now s =
      if is_idle s.state then record s { state = backoff_waiting; next_action_at_ms = now } else s

  unfoldable pub latch : Env → Service C → Service C
  latch e s = record s {
    last_network_ready = e.network_ready;
    last_settings_ready = e.settings_available;
  }

  unfoldable pub close_gates : ℕ → Service C → Service C
  close_gates now s =
      let t = mark_disconnected C network_gate_closed now s in
      let stopped = if is_active s.state then record t { client = C.stop t.client } else s in
      go_idle (record stopped { mqtt_connected = false })

  -- The client's own loop runs while the service is connecting or online.
  unfoldable pub run_client : Service C → Service C
  run_client s = if is_active s.state then record s { client = C.handle s.client } else s

  unfoldable pub handle_gates : Env → ℕ → Service C → Service C
  handle_gates e now s =
      let ready = run_client (latch e (wake now s)) in
      if e.network_ready && e.settings_available
      then dispatch ready.state e now ready
      else close_gates now (latch e s)

  -- The periodic status line only moves its own time.
  unfoldable pub log_status : ℕ → Service C → Service C
  log_status now s =
      if leb 1000 (sub32 now s.last_status_log_at_ms)
      then record s { last_status_log_at_ms = now }
      else s

  unfoldable pub handle : Env → Service C → Service C
  handle e s =
      let now = clock C s e.now in
      let seen = record s {
        settings_ready = e.settings_available;
        client_disconnect_observed = false;
      } in
      if s.client_disconnect_observed && is_active s.state
      then schedule_retry C e (mark_disconnected C connection_lost now seen)
      else handle_gates e now (log_status now seen)

  unfoldable pub stop : ℕ → Service C → Service C
  stop now s =
      let t = record s {
        client_disconnect_observed = false;
        client = C.stop s.client;
        mqtt_connected = false;
      } in
      go_idle (mark_disconnected C network_gate_closed (clock C s now) t)

  -- `onDisconnectedThunk`, called from the client's task.
  unfoldable pub on_disconnected : Service C → Service C
  on_disconnected s = record s { client_disconnect_observed = true }
