-- ===== src/Mqtt/Loop/First.antt =====
-- The first connection of a `MqttService`, which runs the whole of `begin`.
use io_tsmart_sys_core.Base.{
  ℕ, ◌≤◌, true, false, ◌≡◌, ◌≢◌, refl, arith, ◌∷◌, [], subst, Option, none, some, Text,
}
use io_tsmart_sys_core.Settings.Mqtt.{MqttConfig}
use io_tsmart_sys_core.Mqtt.Broker.{build_uri, resolve_profile, target_profile}
use io_tsmart_sys_core.Mqtt.Queue.{clear}
use io_tsmart_sys_core.Mqtt.Client.{MqttClient}
use io_tsmart_sys_core.Mqtt.Service.{Service, backoff_waiting, mark_disconnected}
use io_tsmart_sys_core.Mqtt.Connect.{Env, Settings, clock, schedule_retry}
use io_tsmart_sys_core.Mqtt.Loop.{
  handle, handle_gates, log_status, latch, wake, run_client, dispatch, start_connect, start_with,
  start_to, init_client, init_failed, attempt_with, connect, choose, configured,
}
use io_tsmart_sys_core.Mqtt.Loop.Stored.{begin-store}

module _ (C : MqttClient) where
  attempt-queue :
      (e : Env) (s : Service C)
      → s.client_initialized ≡ false
      → (attempt_with C e (init_client C e s)).queue ≡ clear s.queue
  unfolding attempt_with init_client connect init_failed schedule_retry mark_disconnected
  attempt-queue e s u = ground (arith, begin-store C s.cfg s.policy e s)

  start_to-queue :
      (e : Env) (settings : Settings) (profile : MqttConfig) (uri : Text) (s : Service C)
      → s.client_initialized ≡ false
      → uri ≢ []
      → (start_to C e settings profile uri s).queue ≡ clear s.queue
  unfolding start_to
  start_to-queue e settings profile [] s u h = absurd (h refl)
  start_to-queue e settings profile (c ∷ cs) s u h =
      attempt-queue e (record s { cfg = configured settings profile (c ∷ cs) s.cfg }) u

  -- The URI of the broker that an attempt goes to.
  abbrev pub broker_uri : Settings → ℕ → Text
  broker_uri settings attempt =
      build_uri (resolve_profile settings.mqtt (target_profile settings.mqtt attempt))

  start_with-queue :
      (e : Env) (o : Option Settings) (settings : Settings) (s : Service C)
      → s.client_initialized ≡ false
      → o ≡ some settings
      → broker_uri settings s.attempt ≢ []
      → (start_with C e o s).queue ≡ clear s.queue
  unfolding start_with choose
  start_with-queue e none settings s u current uri = cc
  start_with-queue e (some current) settings s u same uri =
      start_to-queue e current
        (resolve_profile current.mqtt (target_profile current.mqtt s.attempt))
        (broker_uri current s.attempt) (choose C current s) u
        (let eq : settings ≡ current = cc in subst (λ k. broker_uri k s.attempt ≢ []) eq uri)

  start_connect-queue :
      (e : Env) (settings : Settings) (s : Service C)
      → s.client_initialized ≡ false
      → s.settings_ready ≡ true
      → e.settings ≡ some settings
      → broker_uri settings s.attempt ≢ []
      → (start_connect C e s).queue ≡ clear s.queue
  unfolding start_connect
  start_connect-queue e settings s u ready current uri =
      ground (arith, start_with-queue e e.settings settings s u current uri)

  -- What waits in the offline queue is dropped by the first connection attempt: where the client
  -- has not been initialised, both gates are open, an attempt is due and a broker is configured,
  -- `handle` empties the queue, whether or not the client accepts the configuration.
  pub first_attempt_drops_queue :
      (e : Env) (settings : Settings) (s : Service C)
      → s.client_initialized ≡ false
      → e.network_ready ≡ true
      → e.settings_available ≡ true
      → e.settings ≡ some settings
      → broker_uri settings s.attempt ≢ []
      → s.state ≡ backoff_waiting
      → s.next_action_at_ms ≤ clock C s e.now
      → (handle C e s).queue ≡ clear s.queue
  unfolding handle handle_gates log_status latch wake run_client dispatch
  first_attempt_drops_queue e settings s u network available current uri k due =
      let now = clock C s e.now in
      let seen = record s {
        settings_ready = e.settings_available;
        client_disconnect_observed = false;
      } in
      let ready = latch C e (log_status C now seen) in
      ground (arith, start_connect-queue e settings ready)
