-- ===== src/Mqtt/Calls/Refused.antt =====
-- A client that refuses every configuration.
use io_tsmart_sys_core.Base.{
  ℕ, ◌≤◌, Bool, true, false, ◌≡◌, refl, arith, List, [], ◌∷◌, Option, none, some, Text,
}
use io_tsmart_sys_core.Transport.{TransportConfig, MessageView}
use io_tsmart_sys_core.Settings.Mqtt.{MqttConfig}
use io_tsmart_sys_core.Mqtt.Broker.{
  build_uri, resolve_profile, target_profile, profile_eq, select_profile,
}
use io_tsmart_sys_core.Mqtt.Client.{MqttClient}
use io_tsmart_sys_core.Mqtt.Service.{
  Service, State, idle, connecting, online, backoff_waiting, RetryPolicy, publish, republish,
  subscribe, mark_disconnected,
}
use io_tsmart_sys_core.Mqtt.Connect.{
  Env, Settings, begin, prepare, clock, is_active, schedule_retry, on_settings_ready,
}
use io_tsmart_sys_core.Mqtt.Loop.{
  handle, stop, on_disconnected, init_client, init_failed, attempt_with, choose, start_to,
  start_with, start_connect, configured, dispatch, handle_gates, wake, latch, run_client,
  close_gates, log_status,
}
use io_tsmart_sys_core.Mqtt.Calls.{
  Call, call_begin, call_handle, call_stop, call_publish, call_republish, call_subscribe,
  call_on_disconnected, call_on_settings_ready, client_moves, gate_cleared, step, run, new,
}

-- The service has not got past its first attempt.
pub record IsStuck {C : MqttClient} (s : Service C) : Type 0 where
  pub uninitialized : s.client_initialized ≡ false
  pub inactive : is_active s.state ≡ false
  pub attempt : s.attempt ≤ 1
  pub fallback : s.fallback_broker_active ≡ false

target_early :
    (settings : Settings) (attempt : ℕ)
    → attempt ≤ 1
    → profile_eq (target_profile settings.mqtt attempt) (select_profile settings.mqtt) ≡ true
unfolding target_profile profile_eq
target_early settings attempt h = ground arith

module _ (C : MqttClient)
    (refuses : (cfg : TransportConfig) (c : C.State) → (C.begin cfg c).0 ≡ false) where
  subscribe-IsStuck :
      (topic : Option Text) (s : Service C) → IsStuck s → IsStuck (subscribe C topic s).0
  unfolding subscribe
  subscribe-IsStuck none s v = v
  subscribe-IsStuck (some []) s v = v
  subscribe-IsStuck (some (c ∷ cs)) s v = ground arith

  -- What `subscribe` changes, `IsFresh` does not read.
  record IsFresh (s : Service C) : Type 0 where
    attempt : s.attempt ≡ 0
    uninitialized : s.client_initialized ≡ false
    fallback : s.fallback_broker_active ≡ false

  prepare-IsFresh :
      (cfg : TransportConfig) (policy : RetryPolicy) (e : Env) (s : Service C)
      → s.client_initialized ≡ false
      → IsFresh (prepare C cfg policy e s)
  unfolding prepare
  prepare-IsFresh cfg policy e s u = ground arith

  subscribe-IsFresh :
      (topic : Option Text) (s : Service C) → IsFresh s → IsFresh (subscribe C topic s).0
  unfolding subscribe
  subscribe-IsFresh none s v = v
  subscribe-IsFresh (some []) s v = v
  subscribe-IsFresh (some (c ∷ cs)) s v = ground arith

  begin-refused :
      (cfg : TransportConfig) (policy : RetryPolicy) (e : Env) (s : Service C)
      → s.client_initialized ≡ false
      → IsFresh (begin C cfg policy e s).0
        × IsStuck (begin C cfg policy e s).0
        × ((begin C cfg policy e s).1 ≡ false)
  unfolding begin
  begin-refused cfg policy e s u =
      let p = prepare C cfg policy e s in
      let t = (subscribe C cfg.subscribe_topic p).0 in
      ground (
        arith,
        subscribe-IsFresh cfg.subscribe_topic p (prepare-IsFresh cfg policy e s u),
        refuses cfg t.client,
      )

  init_failed-IsStuck : (e : Env) (s : Service C) → IsFresh s → IsStuck (init_failed C e s)
  unfolding init_failed schedule_retry mark_disconnected
  init_failed-IsStuck e s v = ground arith

  attempt-IsStuck :
      (e : Env) (s : Service C)
      → s.client_initialized ≡ false
      → IsStuck (attempt_with C e (init_client C e s))
  unfolding attempt_with init_client
  attempt-IsStuck e s u = ground (
    arith,
    begin-refused s.cfg s.policy e s u,
    init_failed-IsStuck e (begin C s.cfg s.policy e s).0,
  )

  start_to-IsStuck :
      (e : Env) (settings : Settings) (profile : MqttConfig) (uri : Text) (s : Service C)
      → IsStuck s
      → IsStuck (start_to C e settings profile uri s)
  unfolding start_to
  start_to-IsStuck e settings profile [] s v = ground arith
  start_to-IsStuck e settings profile (c ∷ cs) s v =
      attempt-IsStuck e (record s { cfg = configured settings profile (c ∷ cs) s.cfg })
        v.uninitialized

  start_with-IsStuck :
      (e : Env) (o : Option Settings) (s : Service C) → IsStuck s → IsStuck (start_with C e o s)
  unfolding start_with choose
  start_with-IsStuck e none s v = ground arith
  start_with-IsStuck e (some settings) s v =
      start_to-IsStuck e settings profile (build_uri profile) (choose C settings s)
        (ground (arith, target_early settings s.attempt v.attempt))
    where
      profile : MqttConfig
      profile = resolve_profile settings.mqtt (target_profile settings.mqtt s.attempt)

  start_connect-IsStuck : (e : Env) (s : Service C) → IsStuck s → IsStuck (start_connect C e s)
  unfolding start_connect
  start_connect-IsStuck e s v = ground (arith, start_with-IsStuck e e.settings s v)

  dispatch-IsStuck :
      (k : State) (e : Env) (now : ℕ) (s : Service C)
      → s.state ≡ k
      → IsStuck s
      → IsStuck (dispatch C k e now s)
  unfolding dispatch
  dispatch-IsStuck idle e now s k v = v
  dispatch-IsStuck connecting e now s k v = absurd (ground arith)
  dispatch-IsStuck backoff_waiting e now s k v = ground (arith, start_connect-IsStuck e s v)
  dispatch-IsStuck online e now s k v = absurd (ground arith)

  ready-IsStuck :
      (e : Env) (now : ℕ) (s : Service C)
      → IsStuck s
      → IsStuck (run_client C (latch C e (wake C now s)))
  unfolding run_client latch wake
  ready-IsStuck e now s v = ground arith

  close_gates-IsStuck :
      (e : Env) (now : ℕ) (s : Service C) → IsStuck s → IsStuck (close_gates C now (latch C e s))
  unfolding close_gates latch
  close_gates-IsStuck e now s v = ground arith

  log_status-IsStuck : (now : ℕ) (s : Service C) → IsStuck s → IsStuck (log_status C now s)
  unfolding log_status
  log_status-IsStuck now s v = ground arith

  handle_gates-IsStuck :
      (e : Env) (now : ℕ) (s : Service C) → IsStuck s → IsStuck (handle_gates C e now s)
  unfolding handle_gates
  handle_gates-IsStuck e now s v =
      let ready = run_client C (latch C e (wake C now s)) in
      ground (
        arith,
        dispatch-IsStuck ready.state e now ready refl (ready-IsStuck e now s v),
        close_gates-IsStuck e now s v,
      )

  handle-IsStuck : (e : Env) (s : Service C) → IsStuck s → IsStuck (handle C e s)
  unfolding handle
  handle-IsStuck e s v =
      let now = clock C s e.now in
      let seen = record s {
        settings_ready = e.settings_available;
        client_disconnect_observed = false;
      } in
      let stuck : IsStuck seen = ground arith in
      let logged = log_status C now seen in
      ground (arith, handle_gates-IsStuck e now logged (log_status-IsStuck now seen stuck))

  publish-IsStuck :
      (topic : Option Text) (payload : List ℕ) (retain : Bool) (s : Service C)
      → IsStuck s
      → IsStuck (publish C topic payload retain s).0
  unfolding publish
  publish-IsStuck topic payload retain s v = ground arith

  republish-IsStuck :
      (msg : MessageView) (s : Service C) → IsStuck s → IsStuck (republish C msg s).0
  unfolding republish
  republish-IsStuck msg s v = ground arith

  stop-IsStuck : (now : ℕ) (s : Service C) → IsStuck s → IsStuck (stop C now s)
  unfolding stop mark_disconnected
  stop-IsStuck now s v = ground arith

  on_settings_ready-IsStuck :
      (now : ℕ) (s : Service C) → IsStuck s → IsStuck (on_settings_ready C now s)
  unfolding on_settings_ready
  on_settings_ready-IsStuck now s v = ground arith

  step-IsStuck : (c : Call C) (s : Service C) → IsStuck s → IsStuck (step C c s)
  unfolding step on_disconnected
  step-IsStuck (call_begin cfg policy e) s v = (begin-refused cfg policy e s v.uninitialized).1
  step-IsStuck (call_handle e) s v = handle-IsStuck e s v
  step-IsStuck (call_stop now) s v = stop-IsStuck now s v
  step-IsStuck (call_publish topic payload retain) s v = publish-IsStuck topic payload retain s v
  step-IsStuck (call_republish msg) s v = republish-IsStuck msg s v
  step-IsStuck (call_subscribe topic) s v = subscribe-IsStuck topic s v
  step-IsStuck call_on_disconnected s v = ground arith
  step-IsStuck (call_on_settings_ready now) s v = on_settings_ready-IsStuck now s v
  step-IsStuck (client_moves client) s v = ground arith
  step-IsStuck gate_cleared s v = ground arith

  run-IsStuck : (cs : List (Call C)) (s : Service C) → IsStuck s → IsStuck (run C cs s)
  unfolding run
  run-IsStuck [] s v = v
  run-IsStuck (c ∷ cs) s v = run-IsStuck cs (step C c s) (step-IsStuck c s v)

  -- With a client that refuses every configuration, after any sequence of calls on a new service
  -- the client counts as uninitialised, the service is neither Connecting nor Online, at most one
  -- failed attempt is counted, and no fallback broker is noted.
  pub refused_never_falls_back :
      (cs : List (Call C)) (cfg : TransportConfig) (policy : RetryPolicy) (client : C.State)
      → IsStuck (run C cs (new C cfg policy client))
  unfolding new
  refused_never_falls_back cs cfg policy client =
      run-IsStuck cs (new C cfg policy client) (ground arith)
