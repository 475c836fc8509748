-- ===== src/Mqtt/Loop/Gates.antt =====
-- What one call of `handle` does, by the gates and the state that it meets.
use io_tsmart_sys_core.Base.{
  sym, subst, ◌∙◌, ap, refl, ◌≤◌, ◌^◌, ◌*◌, min, ℕ, ◌+◌, ◌<◌, true, false, ◌&&◌, ◌≡◌, arith,
  if◌then◌else◌, u32,
}
use io_tsmart_sys_core.Backoff.Bounds.{compute_backoff_ms_lem}
use io_tsmart_sys_core.Mqtt.Client.{MqttClient}
use io_tsmart_sys_core.Mqtt.Service.{
  Service, idle, connecting, online, backoff_waiting, mark_disconnected, drain_queue,
  resubscribe_all,
}
use io_tsmart_sys_core.Mqtt.Connect.{Env, clock, schedule_retry, is_active}
use io_tsmart_sys_core.Mqtt.Loop.{
  State, handle, handle_gates, log_status, latch, wake, run_client, close_gates, dispatch,
  handle_connecting, handle_online, go_online, lose_connection,
}

module _ (C : MqttClient) where
  -- Where one of the two gates is closed and no disconnection of a running client is left to treat,
  -- `handle` leaves the service idle with the gate's bit clear and the queue and the count of
  -- attempts as they were, and stops the client if it was running.
  pub handle_closed :
      (e : Env) (s : Service C)
      → e.network_ready && e.settings_available ≡ false
      → s.client_disconnect_observed && is_active s.state ≡ false
      → ((handle C e s).state ≡ idle)
        × ((handle C e s).mqtt_connected ≡ false)
        × ((handle C e s).queue ≡ s.queue)
        × ((handle C e s).attempt ≡ s.attempt)
        × ((handle C e s).client ≡ (if is_active s.state then C.stop s.client else s.client))
  unfolding handle handle_gates log_status latch close_gates mark_disconnected
  handle_closed e s closed quiet = ground arith

  -- With both gates open, a service that waits for a later time than the clock gives does nothing
  -- but wait on, also where that time is later only because the clock wrapped.
  pub handle_waits :
      (e : Env) (s : Service C)
      → e.network_ready && e.settings_available ≡ true
      → s.state ≡ backoff_waiting
      → clock C s e.now < s.next_action_at_ms
      → ((handle C e s).state ≡ backoff_waiting)
        × ((handle C e s).next_action_at_ms ≡ s.next_action_at_ms)
        × ((handle C e s).client ≡ s.client)
        × ((handle C e s).attempt ≡ s.attempt)
  unfolding handle handle_gates log_status latch wake run_client dispatch
  handle_waits e s opened waits later = ground arith

  -- The state that the `switch` of `handle` meets with both gates open.
  abbrev ready : Env → Service C → Service C
  ready e s =
      let now = clock C s e.now in
      let seen = record s {
        settings_ready = e.settings_available;
        client_disconnect_observed = false;
      } in
      run_client C (latch C e (wake C now (log_status C now seen)))

  handle-dispatch :
      (e : Env) (s : Service C)
      → e.network_ready && e.settings_available ≡ true
      → s.client_disconnect_observed ≡ false
      → handle C e s ≡ dispatch C (ready e s).state e (clock C s e.now) (ready e s)
  unfolding handle handle_gates
  handle-dispatch e s opened quiet = ground arith

  -- A running service comes there with its client's own loop run.
  ready_running :
      (e : Env) (s : Service C)
      → is_active s.state ≡ true
      → ((ready e s).state ≡ s.state)
        × ((ready e s).client ≡ C.handle s.client)
        × ((ready e s).queue ≡ s.queue)
        × ((ready e s).attempt ≡ s.attempt)
  unfolding run_client latch wake log_status
  ready_running e s active = ground arith

  drain_queue-State :
      (s : Service C)
      → ((drain_queue C s).state ≡ s.state)
        × ((drain_queue C s).mqtt_connected ≡ s.mqtt_connected)
        × ((drain_queue C s).attempt ≡ s.attempt)
  unfolding drain_queue
  drain_queue-State s = ground arith

  go_online_state :
      (now : ℕ) (s : Service C)
      → ((go_online C now s).state ≡ online)
        × ((go_online C now s).mqtt_connected ≡ true)
        × ((go_online C now s).attempt ≡ 0)
  unfolding go_online resubscribe_all
  go_online_state now s = drain_queue-State _

  dispatch_connected :
      (k : State) (e : Env) (now : ℕ) (s : Service C)
      → k ≡ connecting
      → C.is_connected s.client ≡ true
      → dispatch C k e now s ≡ go_online C now s
  unfolding dispatch handle_connecting
  dispatch_connected k e now s h up = ground arith

  -- With both gates open, a connecting service whose client turns out connected after its own loop
  -- is online after the call, with the gate's bit set and no failed attempt counted.
  pub handle_comes_online :
      (e : Env) (s : Service C)
      → e.network_ready && e.settings_available ≡ true
      → s.client_disconnect_observed ≡ false
      → s.state ≡ connecting
      → C.is_connected (C.handle s.client) ≡ true
      → ((handle C e s).state ≡ online)
        × ((handle C e s).mqtt_connected ≡ true)
        × ((handle C e s).attempt ≡ 0)
  handle_comes_online e s opened quiet k up =
      let run = ready_running e s (ap is_active k) in
      let now = clock C s e.now in
      let met =
        dispatch_connected (ready e s).state e now (ready e s) (run.0 ∙ k)
          (ap C.is_connected run.1 ∙ up) in
      subst (λ t. (t.state ≡ online) × (t.mqtt_connected ≡ true) × (t.attempt ≡ 0))
        (sym (handle-dispatch e s opened quiet ∙ met)) (go_online_state now (ready e s))

  lose_connection_state :
      (e : Env) (now : ℕ) (s : Service C)
      → ((lose_connection C e now s).state ≡ backoff_waiting)
        × ((lose_connection C e now s).mqtt_connected ≡ false)
        × ((lose_connection C e now s).client ≡ C.stop s.client)
        × ((lose_connection C e now s).attempt ≡ u32 (s.attempt + 1))
        × ((lose_connection C e now s).queue ≡ s.queue)
  unfolding lose_connection schedule_retry mark_disconnected
  lose_connection_state e now s = ground arith

  dispatch_lost :
      (k : State) (e : Env) (now : ℕ) (s : Service C)
      → k ≡ online
      → C.is_connected s.client ≡ false
      → dispatch C k e now s ≡ lose_connection C e now s
  unfolding dispatch handle_online
  dispatch_lost k e now s h down = ground arith

  -- With both gates open, an online service whose client is no longer connected goes to
  -- BackoffWaiting, with the bit clear, the client stopped, one more attempt counted and the queue
  -- kept.
  pub handle_goes_offline :
      (e : Env) (s : Service C)
      → e.network_ready && e.settings_available ≡ true
      → s.client_disconnect_observed ≡ false
      → s.state ≡ online
      → C.is_connected (C.handle s.client) ≡ false
      → ((handle C e s).state ≡ backoff_waiting)
        × ((handle C e s).mqtt_connected ≡ false)
        × ((handle C e s).client ≡ C.stop (C.handle s.client))
        × ((handle C e s).attempt ≡ u32 (s.attempt + 1))
        × ((handle C e s).queue ≡ s.queue)
  handle_goes_offline e s opened quiet k down =
      let run = ready_running e s (ap is_active k) in
      let now = clock C s e.now in
      let met =
        dispatch_lost (ready e s).state e now (ready e s) (run.0 ∙ k)
          (ap C.is_connected run.1 ∙ down) in
      let after = lose_connection_state e now (ready e s) in
      rw (handle-dispatch e s opened quiet ∙ met) (
        after.0,
        after.1,
        after.2 ∙ ap C.stop run.1,
        after.3 ∙ ap (λ n. u32 (n + 1)) run.3,
        after.4 ∙ run.2,
      )

  -- The next attempt is due at the clock's time plus the initial backoff, doubled once for each
  -- counted attempt up to the number of fast retries and held at the maximum, plus at most the
  -- jitter, as long as that time does not pass 32 bits.
  pub schedule_retry_due :
      (e : Env) (s : Service C)
      → clock C s e.later + (s.policy.backoff.max_backoff_ms + s.policy.backoff.jitter_ms)
        < 4294967295
      → s.policy.backoff.initial_backoff_ms < 4294967296
      → (delay : ℕ) × (delay
          ≡ min
              (s.policy.backoff.initial_backoff_ms
                * 2 ^ min (u32 (s.attempt + 1)) s.policy.backoff.max_fast_retries)
              s.policy.backoff.max_backoff_ms)
        × (clock C s e.later + delay ≤ (schedule_retry C e s).next_action_at_ms)
        × ((schedule_retry C e s).next_action_at_ms
            ≤ clock C s e.later + delay + s.policy.backoff.jitter_ms)
  unfolding schedule_retry
  schedule_retry_due e s fits initial =
      let p = s.policy.backoff in
      let delay =
        min (p.initial_backoff_ms * 2 ^ min (u32 (s.attempt + 1)) p.max_fast_retries)
          p.max_backoff_ms in
      let exact = compute_backoff_ms_lem p (u32 (s.attempt + 1)) e.random (omega arith) initial in
      (delay, refl, ground (arith, exact), ground (arith, exact))
