-- ===== src/Mqtt/Loop/Sound.antt =====
-- What holds of the service between two calls.
use io_tsmart_sys_core.Base.{
  ◌&&◌, not, ℕ, Bool, true, false, ◌≡◌, refl, arith, ◌∙◌, List, [], ◌∷◌, Option, none, some, Text,
}
use io_tsmart_sys_core.Transport.{TransportConfig, MessageView}
use io_tsmart_sys_core.Settings.Mqtt.{MqttConfig}
use io_tsmart_sys_core.Mqtt.Broker.{build_uri, resolve_profile, target_profile}
use io_tsmart_sys_core.Mqtt.Client.{MqttClient}
use io_tsmart_sys_core.Mqtt.Service.{
  Service, State, idle, connecting, online, backoff_waiting, client_init_failed, connection_lost,
  RetryPolicy, mark_disconnected, mark_connected, drain_queue, publish, republish, subscribe,
  resubscribe_all,
}
use io_tsmart_sys_core.Mqtt.Connect.{Env, Settings, clock, prepare, begin, schedule_retry}
use io_tsmart_sys_core.Mqtt.Loop.{
  init_failed, init_client, connect, attempt_with, choose, start_to, start_with, configured,
  go_online, time_out, lose_connection, start_connect, handle_connecting, handle_online, dispatch,
  wake, latch, close_gates, run_client, handle_gates, log_status, handle,
}

abbrev pub is_online : State → Bool
is_online online = true
is_online _ = false

-- `cleared` says that another component has cleared the gate's bit since the service is online. The
-- bit is set exactly while the service is online and that has not happened, and while it is online no
-- failed attempt is counted, no outage is running and no fallback is noted.
pub record IsSound {C : MqttClient} (cleared : Bool) (s : Service C) : Type 0 where
  pub bit : s.mqtt_connected ≡ (is_online s.state && not cleared)
  pub held : cleared ≡ true → is_online s.state ≡ true
  pub attempt : s.state ≡ online → s.attempt ≡ 0
  pub outage : s.state ≡ online → s.offline_since_ms ≡ 0
  pub fallback : s.state ≡ online → s.fallback_broker_active ≡ false

-- What the flag becomes where a call leads to the service `s`.
abbrev pub still : {C : MqttClient} → Bool → Service C → Bool
still cleared s = is_online s.state && cleared

module _ (C : MqttClient) where
  -- The service is not online and the bit is clear.
  pub record IsDown (s : Service C) : Type 0 where
    pub bit : s.mqtt_connected ≡ false
    pub state : is_online s.state ≡ false

  pub Sound-Down : (s : Service C) (c : Bool) → IsDown s → IsSound (still c s) s
  Sound-Down s c d = ground arith

  pub Sound-still : (s : Service C) (c : Bool) → IsSound c s → IsSound (still c s) s
  Sound-still s c v = ground arith

  schedule_retry-IsDown : (e : Env) (s : Service C) → IsDown (schedule_retry C e s)
  unfolding schedule_retry
  schedule_retry-IsDown e s = ground arith

  -- What `IsSound` reads is the same in both.
  pub record SameLink (s t : Service C) : Type 0 where
    pub bit : t.mqtt_connected ≡ s.mqtt_connected
    pub state : t.state ≡ s.state
    pub attempt : t.attempt ≡ s.attempt
    pub outage : t.offline_since_ms ≡ s.offline_since_ms
    pub fallback : t.fallback_broker_active ≡ s.fallback_broker_active

  pub subscribe-SameLink :
      (topic : Option Text) (s : Service C) → SameLink s (subscribe C topic s).0
  unfolding subscribe
  subscribe-SameLink none s = ground arith
  subscribe-SameLink (some []) s = ground arith
  subscribe-SameLink (some (c ∷ cs)) s = ground arith

  drain_queue-SameLink : (s : Service C) → SameLink s (drain_queue C s)
  unfolding drain_queue
  drain_queue-SameLink s = ground arith

  pub publish-SameLink :
      (topic : Option Text) (payload : List ℕ) (retain : Bool) (s : Service C)
      → SameLink s (publish C topic payload retain s).0
  unfolding publish
  publish-SameLink topic payload retain s = ground arith

  pub republish-SameLink : (msg : MessageView) (s : Service C) → SameLink s (republish C msg s).0
  unfolding republish
  republish-SameLink msg s = ground arith

  prepare-down :
      (cfg : TransportConfig) (policy : RetryPolicy) (e : Env) (s : Service C)
      → (prepare C cfg policy e s).mqtt_connected ≡ false
  unfolding prepare
  prepare-down cfg policy e s = ground arith

  pub begin-IsDown :
      (cfg : TransportConfig) (policy : RetryPolicy) (e : Env) (s : Service C)
      → IsDown (begin C cfg policy e s).0
  unfolding begin
  begin-IsDown cfg policy e s =
      let p = prepare C cfg policy e s in
      record {
        bit = (subscribe-SameLink cfg.subscribe_topic p).bit ∙ prepare-down cfg policy e s;
        state = refl;
      }

  init_client-IsDown : (e : Env) (s : Service C) → IsDown s → IsDown (init_client C e s).0
  unfolding init_client
  init_client-IsDown e s d = ground (arith, begin-IsDown s.cfg s.policy e s)

  attempt_with-IsDown : (e : Env) (r : Service C × Bool) → IsDown r.0 → IsDown (attempt_with C e r)
  unfolding attempt_with connect init_failed
  attempt_with-IsDown e (s, ok) d = ground (
    arith,
    schedule_retry-IsDown e (mark_disconnected C client_init_failed (clock C s e.later) s),
  )

  start_to-IsDown :
      (e : Env) (settings : Settings) (profile : MqttConfig) (uri : Text) (s : Service C)
      → IsDown s
      → IsDown (start_to C e settings profile uri s)
  unfolding start_to
  start_to-IsDown e settings profile [] s d = ground arith
  start_to-IsDown e settings profile (c ∷ cs) s d =
      attempt_with-IsDown e (init_client C e t)
        (init_client-IsDown e t (record { bit = d.bit; state = d.state }))
    where
      t : Service C
      t = record s { cfg = configured settings profile (c ∷ cs) s.cfg }

  start_with-IsDown :
      (e : Env) (o : Option Settings) (s : Service C) → IsDown s → IsDown (start_with C e o s)
  unfolding start_with choose
  start_with-IsDown e none s d = ground arith
  start_with-IsDown e (some settings) s d =
      start_to-IsDown e settings profile (build_uri profile) (choose C settings s)
        (record { bit = d.bit; state = d.state })
    where
      profile : MqttConfig
      profile = resolve_profile settings.mqtt (target_profile settings.mqtt s.attempt)

  start_connect-IsDown : (e : Env) (s : Service C) → IsDown s → IsDown (start_connect C e s)
  unfolding start_connect
  start_connect-IsDown e s d = ground (arith, start_with-IsDown e e.settings s d)

  mark_connected-outage :
      (now : ℕ) (s : Service C)
      → ((mark_connected C now s).offline_since_ms ≡ 0)
        × ((mark_connected C now s).fallback_broker_active ≡ false)
  unfolding mark_connected
  mark_connected-outage now s = ground arith

  resubscribe_all-SameLink : (s : Service C) → SameLink s (resubscribe_all C s)
  unfolding resubscribe_all
  resubscribe_all-SameLink s = ground arith

  pub Sound-SameLink : (s t : Service C) (c : Bool) → SameLink s t → IsSound c s → IsSound c t
  Sound-SameLink s t c l v = ground arith

  go_online-IsSound : (now : ℕ) (s : Service C) → IsSound false (go_online C now s)
  unfolding go_online
  go_online-IsSound now s =
      Sound-SameLink (resubscribe_all C t) (drain_queue C (resubscribe_all C t)) false
        (drain_queue-SameLink (resubscribe_all C t))
        (Sound-SameLink t (resubscribe_all C t) false (resubscribe_all-SameLink t)
          (ground (arith, mark_connected-outage now s)))
    where
      t : Service C
      t = record (mark_connected C now s) { state = online; attempt = 0; mqtt_connected = true }

  time_out-IsDown : (e : Env) (now : ℕ) (s : Service C) → IsDown (time_out C e now s)
  unfolding time_out
  time_out-IsDown e now s = schedule_retry-IsDown e _

  lose_connection-IsDown : (e : Env) (now : ℕ) (s : Service C) → IsDown (lose_connection C e now s)
  unfolding lose_connection
  lose_connection-IsDown e now s = schedule_retry-IsDown e _

  -- Where the service is not online, nothing was cleared.
  Sound-uncleared : (s : Service C) (c : Bool) → is_online s.state ≡ false → IsSound c s → c ≡ false
  Sound-uncleared s false down v = refl
  Sound-uncleared s true down v = absurd (let up = v.held refl in cc)

  come_online-IsSound :
      (now : ℕ) (s : Service C) (c : Bool)
      → s.state ≡ connecting
      → IsSound c s
      → IsSound (still c (go_online C now s)) (go_online C now s)
  come_online-IsSound now s c k v =
      rw (Sound-uncleared s c (ground arith) v)
        (Sound-still (go_online C now s) false (go_online-IsSound now s))

  dispatch-IsSound :
      (k : State) (e : Env) (now : ℕ) (s : Service C) (c : Bool)
      → s.state ≡ k
      → IsSound c s
      → IsSound (still c (dispatch C k e now s)) (dispatch C k e now s)
  unfolding dispatch handle_connecting handle_online
  dispatch-IsSound idle e now s c k v = Sound-still s c v
  dispatch-IsSound connecting e now s c k v = ground (
    arith,
    come_online-IsSound now s c k v,
    Sound-Down _ c (time_out-IsDown e now s),
    Sound-still s c v,
  )
  dispatch-IsSound backoff_waiting e now s c k v =
      ground
        (arith, start_connect-IsDown e s, Sound-Down (start_connect C e s) c, Sound-still s c v)
  dispatch-IsSound online e now s c k v = ground (
    arith,
    Sound-still _ c (Sound-SameLink s (drain_queue C s) c (drain_queue-SameLink s) v),
    Sound-Down _ c (lose_connection-IsDown e now s),
  )

  wake-IsSound : (now : ℕ) (s : Service C) (c : Bool) → IsSound c s → IsSound c (wake C now s)
  unfolding wake
  wake-IsSound now s c v = ground arith

  latch-IsSound : (e : Env) (s : Service C) (c : Bool) → IsSound c s → IsSound c (latch C e s)
  unfolding latch
  latch-IsSound e s c v = ground arith

  run_client-IsSound : (s : Service C) (c : Bool) → IsSound c s → IsSound c (run_client C s)
  unfolding run_client
  run_client-IsSound s c v = ground arith

  close_gates-IsDown : (now : ℕ) (s : Service C) → IsDown (close_gates C now s)
  unfolding close_gates
  close_gates-IsDown now s = ground arith

  handle_gates-IsSound :
      (e : Env) (now : ℕ) (s : Service C) (c : Bool)
      → IsSound c s
      → IsSound (still c (handle_gates C e now s)) (handle_gates C e now s)
  unfolding handle_gates
  handle_gates-IsSound e now s c v =
      let ready = run_client C (latch C e (wake C now s)) in
      let ready_IsSound = run_client-IsSound _ c (latch-IsSound e _ c (wake-IsSound now s c v)) in
      ground (
        arith,
        dispatch-IsSound ready.state e now ready c refl ready_IsSound,
        Sound-Down _ c (close_gates-IsDown now (latch C e s)),
      )

  log_status-IsSound :
      (now : ℕ) (s : Service C) (c : Bool) → IsSound c s → IsSound c (log_status C now s)
  unfolding log_status
  log_status-IsSound now s c v = ground arith

  pub handle-IsSound :
      (e : Env) (s : Service C) (c : Bool)
      → IsSound c s
      → IsSound (still c (handle C e s)) (handle C e s)
  unfolding handle
  handle-IsSound e s c v =
      let now = clock C s e.now in
      let seen = record s {
        settings_ready = e.settings_available;
        client_disconnect_observed = false;
      } in
      let seen_IsSound : IsSound c seen = record {
        bit = v.bit;
        held = v.held;
        attempt = v.attempt;
        outage = v.outage;
        fallback = v.fallback;
      } in
      ground (
        arith,
        Sound-Down _ c (schedule_retry-IsDown e (mark_disconnected C connection_lost now seen)),
        handle_gates-IsSound e now (log_status C now seen) c
            (log_status-IsSound now seen c seen_IsSound),
      )
