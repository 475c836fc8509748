-- ===== src/Mqtt/Loop/Stored.antt =====
-- What a call of `handle` makes of the offline queue and of the remembered topics.
use io_tsmart_sys_core.Base.{
  ℕ, ◌<◌, Bool, true, false, not, ◌||◌, ◌≡◌, arith, ◌⊎◌, inl, inr, Bool-cases, List, [], ltb,
  ltb→lt, ◌∷◌, ◌++◌, Option, none, some, Text, length,
}
use io_tsmart_sys_core.Transport.{TransportConfig}
use io_tsmart_sys_core.Settings.Mqtt.{MqttConfig}
use io_tsmart_sys_core.Mqtt.Broker.{build_uri, resolve_profile, target_profile}
use io_tsmart_sys_core.Mqtt.Client.{MqttClient}
use io_tsmart_sys_core.Mqtt.Queue.{Queue, pop, clear}
use io_tsmart_sys_core.Mqtt.Service.{
  idle, connecting, online, backoff_waiting, Service, DisconnectReason, client_init_failed,
  RetryPolicy, mark_disconnected, mark_connected, drain_queue, subscribe, resubscribe_all, contains,
}
use io_tsmart_sys_core.Mqtt.Connect.{Env, Settings, clock, prepare, begin, schedule_retry}
use io_tsmart_sys_core.Mqtt.Loop.{
  State, handle_online, wake, handle_connecting, connect_timeout, connection_lost, latch,
  close_gates, log_status, handle, dispatch, time_out, handle_gates, lose_connection, run_client,
  init_failed, init_client, connect, attempt_with, choose, start_to, start_with, configured,
  go_online, start_connect,
}

-- The queue is kept, or its oldest message leaves it, or it is emptied where `empties` allows that.
abbrev pub Moved : Bool → Queue → Queue → Type 0
Moved empties q r = (r ≡ q) ⊎ (((0 < q.count) × (r ≡ pop q)) ⊎ ((empties ≡ true) × (r ≡ clear q)))

-- The topics are kept, or one that is not among them is added at the end while there is room.
abbrev pub Grown : List Text → List Text → Type 0
Grown ts us =
    (us ≡ ts)
    ⊎ ((topic : Text) × (contains topic ts ≡ false) × (length ts < 12) × (us ≡ ts ++ topic ∷ []))

module _ (C : MqttClient) where
  -- Only the first connection and the reconnection with the policy for it empty the queue.
  abbrev pub empties : Service C → Bool
  empties s = not s.client_initialized || s.policy.clear_queue_on_reconnect

  pub record Walk (s t : Service C) : Type 0 where
    pub queue : Moved (empties s) s.queue t.queue
    pub topics : Grown s.subs t.subs

  -- What `Walk` reads is the same in both.
  record SameStore (s t : Service C) : Type 0 where
    queue : t.queue ≡ s.queue
    topics : t.subs ≡ s.subs
    initialized : t.client_initialized ≡ s.client_initialized
    policy : t.policy ≡ s.policy

  Walk-same : (s t : Service C) → SameStore s t → Walk s t
  Walk-same s t k = record { queue = inl k.queue; topics = inl k.topics }

  same-Walk : (s t u : Service C) → SameStore s t → Walk t u → Walk s u
  same-Walk s t u k w = ground arith

  Walk-then : (s t u : Service C) → Walk s t → SameStore t u → Walk s u
  Walk-then s t u w k = ground arith

  same-then : (s t u : Service C) → SameStore s t → SameStore t u → SameStore s u
  same-then s t u k l = ground arith

  schedule_retry-same : (e : Env) (s : Service C) → SameStore s (schedule_retry C e s)
  unfolding schedule_retry
  schedule_retry-same e s = ground arith

  mark_disconnected-same :
      (r : DisconnectReason) (now : ℕ) (s : Service C) → SameStore s (mark_disconnected C r now s)
  unfolding mark_disconnected
  mark_disconnected-same r now s = ground arith

  pub subscribe-Grown :
      (topic : Option Text) (s : Service C)
      → ((subscribe C topic s).0.queue ≡ s.queue) × Grown s.subs (subscribe C topic s).0.subs
  unfolding subscribe
  subscribe-Grown none s = ground arith
  subscribe-Grown (some []) s = ground arith
  subscribe-Grown (some (c ∷ cs)) s = elim (Bool-cases (contains (c ∷ cs) s.subs)) [
    | inl known ↦ (ground arith, inl (ground arith))
    | inr fresh ↦ elim (Bool-cases (ltb (length s.subs) 12)) [
      | inl room ↦ (ground arith, inr (c ∷ cs, fresh, ltb→lt (length s.subs) 12 room, ground arith))
      | inr full ↦ (ground arith, inl (ground arith))
    ]
  ]

  prepare-store :
      (cfg : TransportConfig) (policy : RetryPolicy) (e : Env) (s : Service C)
      → ((prepare C cfg policy e s).queue ≡ clear s.queue)
        × ((prepare C cfg policy e s).subs ≡ s.subs)
  unfolding prepare
  prepare-store cfg policy e s = ground arith

  pub begin-store :
      (cfg : TransportConfig) (policy : RetryPolicy) (e : Env) (s : Service C)
      → ((begin C cfg policy e s).0.queue ≡ clear s.queue)
        × Grown s.subs (begin C cfg policy e s).0.subs
  unfolding begin
  begin-store cfg policy e s = ground (
    arith,
    prepare-store cfg policy e s,
    subscribe-Grown cfg.subscribe_topic (prepare C cfg policy e s),
  )

  init_client-Walk : (e : Env) (s : Service C) → Walk s (init_client C e s).0
  unfolding init_client
  init_client-Walk e s = ground (arith, begin-store s.cfg s.policy e s)

  init_failed-same : (e : Env) (s : Service C) → SameStore s (init_failed C e s)
  unfolding init_failed
  init_failed-same e s =
      let m = mark_disconnected C client_init_failed (clock C s e.later) s in
      same-then s m _ (mark_disconnected-same client_init_failed _ s) (schedule_retry-same e m)

  attempt_with-same : (e : Env) (r : Service C × Bool) → SameStore r.0 (attempt_with C e r)
  unfolding attempt_with connect
  attempt_with-same e (s, ok) = ground (arith, init_failed-same e s)

  start_to-Walk :
      (e : Env) (settings : Settings) (profile : MqttConfig) (uri : Text) (s : Service C)
      → Walk s (start_to C e settings profile uri s)
  unfolding start_to
  start_to-Walk e settings profile [] s = Walk-same s _ (ground arith)
  start_to-Walk e settings profile (c ∷ cs) s = same-Walk s t _ (ground arith) (
      Walk-then t (init_client C e t).0 _ (init_client-Walk e t)
        (attempt_with-same e (init_client C e t)))
    where
      t : Service C
      t = record s { cfg = configured settings profile (c ∷ cs) s.cfg }

  start_with-Walk : (e : Env) (o : Option Settings) (s : Service C) → Walk s (start_with C e o s)
  unfolding start_with choose
  start_with-Walk e none s = Walk-same s _ (ground arith)
  start_with-Walk e (some settings) s =
      same-Walk s (choose C settings s) _ (ground arith)
        (start_to-Walk e settings profile (build_uri profile) (choose C settings s))
    where
      profile : MqttConfig
      profile = resolve_profile settings.mqtt (target_profile settings.mqtt s.attempt)

  start_connect-Walk : (e : Env) (s : Service C) → Walk s (start_connect C e s)
  unfolding start_connect
  start_connect-Walk e s = ground (arith, start_with-Walk e e.settings s)

  drain_queue-Walk : (s : Service C) → Walk s (drain_queue C s)
  unfolding drain_queue
  drain_queue-Walk s = ground arith

  mark_connected-store :
      (now : ℕ) (s : Service C)
      → ((mark_connected C now s).subs ≡ s.subs)
        × (((mark_connected C now s).queue ≡ s.queue)
            ⊎ ((s.policy.clear_queue_on_reconnect ≡ true)
                × ((mark_connected C now s).queue ≡ clear s.queue)))
  unfolding mark_connected
  mark_connected-store now s = ground arith

  go_online-Walk : (now : ℕ) (s : Service C) → Walk s (go_online C now s)
  unfolding go_online drain_queue resubscribe_all clear
  go_online-Walk now s = ground (arith, mark_connected-store now s)

  time_out-same : (e : Env) (now : ℕ) (s : Service C) → SameStore s (time_out C e now s)
  unfolding time_out
  time_out-same e now s =
      same-then s (mark_disconnected C connect_timeout now s) _
        (mark_disconnected-same connect_timeout now s)
        (same-then _ _ _ (ground arith) (schedule_retry-same e _))

  lose_connection-same :
      (e : Env) (now : ℕ) (s : Service C) → SameStore s (lose_connection C e now s)
  unfolding lose_connection
  lose_connection-same e now s =
      same-then s (mark_disconnected C connection_lost now s) _
        (mark_disconnected-same connection_lost now s)
        (same-then _ _ _ (ground arith) (schedule_retry-same e _))

  dispatch-Walk : (k : State) (e : Env) (now : ℕ) (s : Service C) → Walk s (dispatch C k e now s)
  unfolding dispatch handle_connecting handle_online
  dispatch-Walk idle e now s = Walk-same s s (ground arith)
  dispatch-Walk connecting e now s =
      ground (arith, go_online-Walk now s, Walk-same s _ (time_out-same e now s))
  dispatch-Walk backoff_waiting e now s = ground (arith, start_connect-Walk e s)
  dispatch-Walk online e now s =
      ground (arith, drain_queue-Walk s, Walk-same s _ (lose_connection-same e now s))

  ready-same :
      (e : Env) (now : ℕ) (s : Service C) → SameStore s (run_client C (latch C e (wake C now s)))
  unfolding run_client latch wake
  ready-same e now s = ground arith

  close_gates-same :
      (e : Env) (now : ℕ) (s : Service C) → SameStore s (close_gates C now (latch C e s))
  unfolding close_gates latch mark_disconnected
  close_gates-same e now s = ground arith

  handle_gates-Walk : (e : Env) (now : ℕ) (s : Service C) → Walk s (handle_gates C e now s)
  unfolding handle_gates
  handle_gates-Walk e now s =
      let ready = run_client C (latch C e (wake C now s)) in
      ground (
        arith,
        same-Walk s ready _ (ready-same e now s) (dispatch-Walk ready.state e now ready),
        Walk-same s _ (close_gates-same e now s),
      )

  log_status-same : (now : ℕ) (s : Service C) → SameStore s (log_status C now s)
  unfolding log_status
  log_status-same now s = ground arith

  pub handle-Walk : (e : Env) (s : Service C) → Walk s (handle C e s)
  unfolding handle
  handle-Walk e s =
      let now = clock C s e.now in
      let seen = record s {
        settings_ready = e.settings_available;
        client_disconnect_observed = false;
      } in
      let same_seen : SameStore s seen = ground arith in
      let lost = mark_disconnected C connection_lost now seen in
      let logged = log_status C now seen in
      let retried : SameStore s (schedule_retry C e lost) = same-then s seen _ same_seen (
        same-then seen lost _ (mark_disconnected-same connection_lost now seen)
          (schedule_retry-same e lost)) in
      ground (
        arith,
        Walk-same s (schedule_retry C e lost) retried,
        same-Walk s logged _ (same-then s seen logged same_seen (log_status-same now seen))
            (handle_gates-Walk e now logged),
      )
