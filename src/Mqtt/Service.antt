-- ===== src/Mqtt/Service.antt =====
-- The state of `MqttService` and the operations that do not change its connection state.
-- `now` is what the clock gives in the call; every counter is a uint32.
use io_tsmart_sys_core.Base.{
  ℕ, ◌+◌, Bool, true, false, not, ◌&&◌, ◌||◌, List, [], ◌∷◌, ◌++◌, Option, none, some, Text,
  text_eq, length, take, ltb, ◌==◌, if◌then◌else◌, u32, sub32,
}
use io_tsmart_sys_core.Backoff.{Policy}
use io_tsmart_sys_core.Mqtt.Queue.{Queue, enqueue, front, pop, clear}
use io_tsmart_sys_core.Mqtt.Broker.{Profile}
use io_tsmart_sys_core.Transport.{TransportConfig, MessageView}
use io_tsmart_sys_core.Mqtt.Client.{MqttClient}

pub data State : Type 0 where
  idle connecting online backoff_waiting : State

pub data DisconnectReason : Type 0 where
  no_reason network_gate_closed connect_timeout connection_lost client_init_failed :
      DisconnectReason

pub record ReconnectStats : Type 0 where
  pub disconnects_total : ℕ
  pub reconnects_total : ℕ
  pub connect_timeouts_total : ℕ
  pub last_offline_ms : ℕ
  pub max_offline_ms : ℕ
  pub last_backoff_ms : ℕ
  pub last_attempt_count : ℕ
  pub last_disconnect_reason : DisconnectReason

pub record RetryPolicy : Type 0 where
  pub backoff : Policy
  pub clear_queue_on_reconnect : Bool

abbrev pub max_topics : ℕ
max_topics = 12

-- `mqtt_connected` is the bit MQTT_CONNECTED of the shared connectivity gate: the service sets and
-- clears it, and other components clear it too (`gate_cleared` of Mqtt/Calls). `has_time` says
-- whether `_time` is set, and `active_profile` is `none` while `_activeProfileName` is empty.
pub record Service (C : MqttClient) : Type 0 where
  pub client : C.State
  pub mqtt_connected : Bool
  pub settings_ready : Bool
  pub last_settings_ready : Bool
  pub has_time : Bool
  pub cfg : TransportConfig
  pub active_profile : Option Profile
  pub policy : RetryPolicy
  pub state : State
  pub attempt : ℕ
  pub next_action_at_ms : ℕ
  pub last_network_ready : Bool
  pub last_status_log_at_ms : ℕ
  pub client_initialized : Bool
  pub fallback_broker_active : Bool
  pub client_disconnect_observed : Bool
  pub subs : List Text
  pub queue : Queue
  pub reconnect_stats : ReconnectStats
  pub offline_since_ms : ℕ

unfoldable pub contains : Text → List Text → Bool
contains t [] = false
contains t (s ∷ ss) = text_eq s t || contains t ss

module _ (C : MqttClient) where
  unfoldable pub mark_disconnected : DisconnectReason → ℕ → Service C → Service C
  mark_disconnected reason now s =
      let r = s.reconnect_stats in
      if s.offline_since_ms == 0
      then record s {
        offline_since_ms = now;
        reconnect_stats = record r {
          disconnects_total = u32 (r.disconnects_total + 1);
          last_disconnect_reason = reason;
        };
      }
      else record s { reconnect_stats = record r { last_disconnect_reason = reason } }

  came_back : ℕ → Service C → Service C
  came_back now s =
      let r = s.reconnect_stats in
      let offline = sub32 now s.offline_since_ms in
      if s.offline_since_ms == 0 then s else record s {
        offline_since_ms = 0;
        reconnect_stats = record r {
          last_offline_ms = offline;
          max_offline_ms = if ltb r.max_offline_ms offline then offline else r.max_offline_ms;
          reconnects_total = u32 (r.reconnects_total + 1);
        };
      }

  unfoldable pub mark_connected : ℕ → Service C → Service C
  unfolding came_back
  mark_connected now s =
      let t = record (came_back now s) { fallback_broker_active = false } in
      if t.policy.clear_queue_on_reconnect && ltb 0 t.queue.count
      then record t { queue = clear t.queue }
      else t

  -- Sends at most one message, so that the loop does not block.
  unfoldable pub drain_queue : Service C → Service C
  drain_queue s =
      let m = front s.queue in
      let (sent, client) = C.publish (some m.topic) (take m.len m.payload) m.retain s.client in
      if s.queue.count == 0 || not (C.is_connected s.client)
      then s
      else if sent
      then record s { client = client; queue = pop s.queue }
      else record s { client = client }

  enqueued : Option Text → List ℕ → Bool → Service C → Service C × Bool
  enqueued topic payload retain s =
      let (q, accepted) = enqueue topic payload retain s.queue in (record s { queue = q }, accepted)

  unfoldable pub publish : Option Text → List ℕ → Bool → Service C → Service C × Bool
  unfolding enqueued
  publish topic payload retain s =
      let (sent, client) = C.publish topic payload retain s.client in
      let tried = record s { client = client } in
      if C.is_connected s.client
      then (if sent then (tried, true) else enqueued topic payload retain tried)
      else enqueued topic payload retain s

  unfoldable pub republish : MessageView → Service C → Service C × Bool
  unfolding enqueued
  republish msg s =
      let (sent, client) = C.republish msg s.client in
      let tried = record s { client = client } in
      if C.is_connected s.client
      then (if sent then (tried, true) else enqueued msg.topic msg.payload msg.retain tried)
      else enqueued msg.topic msg.payload msg.retain s

  remember_topic : Text → Service C → Service C × Bool
  remember_topic topic s =
      let t = record s { subs = s.subs ++ topic ∷ [] } in
      let (accepted, client) = C.subscribe topic s.client in
      if contains topic s.subs
      then (s, true)
      else if ltb (length s.subs) max_topics
      then (if C.is_connected s.client then (record t { client = client }, accepted) else (t, true))
      else (s, false)

  unfoldable pub subscribe : Option Text → Service C → Service C × Bool
  unfolding remember_topic
  subscribe none s = (s, false)
  subscribe (some []) s = (s, false)
  subscribe (some (c ∷ cs)) s = remember_topic (c ∷ cs) s

  resubscribe : List Text → C.State → C.State
  resubscribe [] client = client
  resubscribe (t ∷ ts) client = resubscribe ts (C.subscribe t client).1

  unfoldable pub resubscribe_all : Service C → Service C
  unfolding resubscribe
  resubscribe_all s = record s { client = resubscribe s.subs s.client }
