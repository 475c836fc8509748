-- ===== src/Mqtt/Connect.antt =====
-- The connection states of `MqttService`: `begin`, `startConnect`, `scheduleRetry`, `handle`, `stop`.
use io_tsmart_sys_core.Base.{
  ℕ, ◌+◌, Bool, true, false, [], ◌∷◌, Option, none, some, Text, ◌==◌, if◌then◌else◌, u32,
}
use io_tsmart_sys_core.Backoff.{compute_backoff_ms}
use io_tsmart_sys_core.Transport.{TransportConfig}
use io_tsmart_sys_core.Settings.Mqtt.{MqttSettings}
use io_tsmart_sys_core.Mqtt.Queue.{clear}
use io_tsmart_sys_core.Mqtt.Broker.{Profile, primary}
use io_tsmart_sys_core.Mqtt.Client.{MqttClient}
use io_tsmart_sys_core.Mqtt.Service.{
  Service, State, idle, connecting, online, backoff_waiting, no_reason, ReconnectStats, RetryPolicy,
  subscribe,
}

-- The settings that `copyCurrent` hands out, as far as the service reads them.
pub record Settings : Type 0 where
  pub mqtt : MqttSettings
  pub client_id : Option Text

-- What one call meets: the clock when it begins and in the functions that it calls, the random
-- number of the jitter, the gates for network (read again before connecting) and settings, and the
-- current settings, if there are any.
pub record Env : Type 0 where
  pub now : ℕ
  pub later : ℕ
  pub random : ℕ
  pub network_ready : Bool
  pub network_still_ready : Bool
  pub settings_available : Bool
  pub settings : Option Settings

abbrev pub no_reconnect_stats : ReconnectStats
no_reconnect_stats = record {
  disconnects_total = 0;
  reconnects_total = 0;
  connect_timeouts_total = 0;
  last_offline_ms = 0;
  max_offline_ms = 0;
  last_backoff_ms = 0;
  last_attempt_count = 0;
  last_disconnect_reason = no_reason;
}

-- A C string of a text that the service owns: null if the text is empty.
abbrev pub c_string : Text → Option Text
c_string [] = none
c_string (c ∷ cs) = some (c ∷ cs)

abbrev or_primary : Option Profile → Option Profile
or_primary none = some primary
or_primary (some p) = some p

abbrev pub is_idle : State → Bool
is_idle idle = true
is_idle _ = false

-- Connecting or online.
abbrev pub is_active : State → Bool
is_active connecting = true
is_active online = true
is_active _ = false

module _ (C : MqttClient) where
  abbrev pub clock : Service C → ℕ → ℕ
  clock s t = if s.has_time then t else 0

  unfoldable pub on_settings_ready : ℕ → Service C → Service C
  on_settings_ready now s =
      let t = record s { settings_ready = true } in
      elim s.has_time [
        | false ↦ t
        | true ↦ elim s.state [
          | idle ↦ record t { state = backoff_waiting; next_action_at_ms = now }
          | backoff_waiting ↦
              if s.next_action_at_ms == 0 then record t { next_action_at_ms = now } else t
          | _ ↦ t
        ]
      ]

  -- The fields that `begin` resets before it subscribes to the settings gate.
  reset : TransportConfig → RetryPolicy → Service C → Service C
  reset cfg policy s = record s {
    has_time = true;
    cfg = cfg;
    policy = policy;
    attempt = 0;
    next_action_at_ms = 0;
    state = idle;
    last_network_ready = false;
    last_settings_ready = false;
    offline_since_ms = 0;
    reconnect_stats = no_reconnect_stats;
    mqtt_connected = false;
    settings_ready = false;
    last_status_log_at_ms = 0;
    fallback_broker_active = false;
    client_disconnect_observed = false;
    active_profile = or_primary s.active_profile;
  }

  -- The part of `begin` before the subscription to the command topic. `runWhenReady` calls back at
  -- once where the settings are available already.
  unfoldable pub prepare : TransportConfig → RetryPolicy → Env → Service C → Service C
  unfolding reset on_settings_ready
  prepare cfg policy e s =
      let fresh = reset cfg policy s in
      let told = if e.settings_available then on_settings_ready e.later fresh else fresh in
      record told { queue = clear told.queue }

  unfoldable pub begin : TransportConfig → RetryPolicy → Env → Service C → Service C × Bool
  unfolding prepare
  begin cfg policy e s =
      let subscribed = (subscribe C cfg.subscribe_topic (prepare cfg policy e s)).0 in
      let (accepted, client) = C.begin cfg subscribed.client in
      (
        record subscribed {
          client = client;
          state = backoff_waiting;
          offline_since_ms = e.later;
          next_action_at_ms = e.later;
        },
        accepted,
      )

  unfoldable pub schedule_retry : Env → Service C → Service C
  schedule_retry e s =
      let attempt = u32 (s.attempt + 1) in
      let now = clock s e.later in
      let backoff = compute_backoff_ms s.policy.backoff attempt e.random in
      record s {
        attempt = attempt;
        reconnect_stats = record r { last_backoff_ms = backoff; last_attempt_count = attempt };
        client = C.stop s.client;
        mqtt_connected = false;
        state = backoff_waiting;
        next_action_at_ms = u32 (now + backoff);
      }
    where
      open s use {reconnect_stats as r}
