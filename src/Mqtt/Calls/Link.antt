-- ===== src/Mqtt/Calls/Link.antt =====
-- The connection states, and the bit of the gate, over any sequence of calls.
use io_tsmart_sys_core.Base.{ℕ, Bool, true, false, ◌||◌, arith, List, [], ◌∷◌}
use io_tsmart_sys_core.Transport.{TransportConfig}
use io_tsmart_sys_core.Mqtt.Client.{MqttClient}
use io_tsmart_sys_core.Mqtt.Service.{Service, RetryPolicy, mark_disconnected}
use io_tsmart_sys_core.Mqtt.Connect.{on_settings_ready}
use io_tsmart_sys_core.Mqtt.Loop.{stop, on_disconnected}
use io_tsmart_sys_core.Mqtt.Loop.Sound.{
  IsSound, IsDown, still, Sound-still, Sound-SameLink, Sound-Down, subscribe-SameLink,
  publish-SameLink, republish-SameLink, begin-IsDown, handle-IsSound,
}
use io_tsmart_sys_core.Mqtt.Calls.{
  Call, call_begin, call_handle, call_stop, call_publish, call_republish, call_subscribe,
  call_on_disconnected, call_on_settings_ready, client_moves, gate_cleared, step, run, new,
}

module _ (C : MqttClient) where
  stop-IsDown : (now : ℕ) (s : Service C) → IsDown C (stop C now s)
  unfolding stop mark_disconnected
  stop-IsDown now s = ground arith

  on_settings_ready-IsSound :
      (now : ℕ) (s : Service C) (c : Bool) → IsSound c s → IsSound c (on_settings_ready C now s)
  unfolding on_settings_ready
  on_settings_ready-IsSound now s c v = ground arith

  on_disconnected-IsSound :
      (s : Service C) (c : Bool) → IsSound c s → IsSound c (on_disconnected C s)
  unfolding on_disconnected
  on_disconnected-IsSound s c v = ground arith

  abbrev is_clear : Call C → Bool
  is_clear gate_cleared = true
  is_clear _ = false

  -- The flag after one call that leads to the service `s`.
  abbrev after : Call C → Bool → Service C → Bool
  after k c s = still (is_clear k || c) s

  -- Whether another component has cleared the bit since the service went online, after the calls
  -- from a service for which `c` says so.
  unfoldable pub cleared_since : List (Call C) → Service C → Bool → Bool
  cleared_since [] s c = c
  cleared_since (k ∷ ks) s c = cleared_since ks (step C k s) (after k c (step C k s))

  gate_cleared-IsSound :
      (s : Service C) (c : Bool)
      → IsSound c s
      → IsSound (after gate_cleared c (step C gate_cleared s)) (step C gate_cleared s)
  unfolding step
  gate_cleared-IsSound s c v = ground arith

  step-IsSound :
      (k : Call C) (s : Service C) (c : Bool)
      → IsSound c s
      → IsSound (after k c (step C k s)) (step C k s)
  unfolding step
  step-IsSound (call_begin cfg policy e) s c v = Sound-Down C _ c (begin-IsDown C cfg policy e s)
  step-IsSound (call_handle e) s c v = handle-IsSound C e s c v
  step-IsSound (call_stop now) s c v = Sound-Down C _ c (stop-IsDown now s)
  step-IsSound (call_publish topic payload retain) s c v =
      Sound-still C _ c (Sound-SameLink C s _ c (publish-SameLink C topic payload retain s) v)
  step-IsSound (call_republish msg) s c v =
      Sound-still C _ c (Sound-SameLink C s _ c (republish-SameLink C msg s) v)
  step-IsSound (call_subscribe topic) s c v =
      Sound-still C _ c (Sound-SameLink C s _ c (subscribe-SameLink C topic s) v)
  step-IsSound call_on_disconnected s c v = Sound-still C _ c (on_disconnected-IsSound s c v)
  step-IsSound (call_on_settings_ready now) s c v =
      Sound-still C _ c (on_settings_ready-IsSound now s c v)
  step-IsSound (client_moves client) s c v = Sound-still C _ c (record {
    bit = v.bit;
    held = v.held;
    attempt = v.attempt;
    outage = v.outage;
    fallback = v.fallback;
  })
  step-IsSound gate_cleared s c v = gate_cleared-IsSound s c v

  run-IsSound :
      (ks : List (Call C)) (s : Service C) (c : Bool)
      → IsSound c s
      → IsSound (cleared_since ks s c) (run C ks s)
  unfolding run cleared_since
  run-IsSound [] s c v = v
  run-IsSound (k ∷ ks) s c v =
      run-IsSound ks (step C k s) (after k c (step C k s)) (step-IsSound k s c v)

  -- After any sequence of calls on a new service, with any client and whatever the client does in
  -- between, and with other components clearing the gate's MQTT_CONNECTED bit at any point between
  -- two calls: the bit is set exactly if the service's state is Online and no other component has
  -- cleared the bit since the service went Online; and in the state Online the count of failed
  -- attempts is 0, no outage is being timed and no fallback is noted.
  pub run-new-IsSound :
      (ks : List (Call C)) (cfg : TransportConfig) (policy : RetryPolicy) (client : C.State)
      → IsSound
          (cleared_since ks (new C cfg policy client) false)
          (run C ks (new C cfg policy client))
  unfolding new
  run-new-IsSound ks cfg policy client =
      run-IsSound ks (new C cfg policy client) false (ground arith)
