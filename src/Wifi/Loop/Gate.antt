-- ===== src/Wifi/Loop/Gate.antt =====
-- What the bits of the connectivity gate say of `WiFiManager` in
-- src/Platform/Espressif/Wifi/WiFiManager.cpp.
use io_tsmart_sys_core.Base.{
  inr, inl, leb, ℕ, Bool, true, false, ◌≡◌, List, [], ◌∷◌, arith, Bool-cases,
}
use io_tsmart_sys_core.Connectivity.{Bits, no_bits}
use io_tsmart_sys_core.Wifi.{
  disconnect, Credential, WifiConfig, WifiState, idle, connecting, connected, backoff_waiting, Wifi,
  Compiled, configured, new_wifi,
}
use io_tsmart_sys_core.Wifi.Select.{select_best_access_point, evaluate_better_access_point, prepare}
use io_tsmart_sys_core.Wifi.Loop.{
  is_roam_due, must_stay, handle_in, send, dropped, note_time, note_loss, switch_if_better,
  connect_with, Radio, Event, associated, got_ip, lost, is_connected, schedule_retry, aim,
  start_connect, begin, handle_connecting, handle_backoff, handle_connected, roam, handle,
  on_wifi_event,
}

-- A call of the manager, an event of the radio, or a change that other components make to their bits.
pub data Call : Type 0 where
  begun : WifiConfig → Radio → Call
  handled : Radio → Call
  happened : Event → Call
  others : Bool → Bool → Call

module _ (compiled : Compiled) where
  unfoldable pub step : Call → Wifi → Wifi
  step (begun cfg r) w = begin compiled cfg r w
  step (handled r) w = handle compiled r w
  step (happened e) w = on_wifi_event e w
  step (others mqtt busy) w = record w {
    bits = record b { mqtt_connected = mqtt; app_network_busy = busy };
  }
    where
      open w use {bits as b}

  unfoldable pub run : List Call → Wifi → Wifi
  run [] w = w
  run (c ∷ cs) w = run cs (step c w)

-- The bit for the IP stands only over an association with an address.
pub record IsHonest (b : Bits) (got_ip associated : Bool) : Type 0 where
  pub ready : b.ip_ready ≡ true → (b.wifi_connected ≡ true) × (got_ip ≡ true)
  pub address : got_ip ≡ true → associated ≡ true

abbrev pub Honest : Wifi → Type 0
Honest w = IsHonest w.bits w.got_ip w.associated

nothing_up : (b : Bool) → IsHonest no_bits false b
nothing_up b = record { ready = λ up. cc; address = λ up. cc }

-- A change that leaves the bits and the two flags alone.
record IsSilent (w v : Wifi) : Type 0 where
  bits : v.bits ≡ w.bits
  got_ip : v.got_ip ≡ w.got_ip
  associated : v.associated ≡ w.associated

silent-Honest : (w v : Wifi) → IsSilent w v → Honest w → Honest v
silent-Honest w v s h = rw (s.bits, s.got_ip, s.associated) h

module _ (compiled : Compiled) (r : Radio) where
  aim-IsSilent : (w : Wifi) → IsSilent w (aim compiled r w)
  unfolding aim select_best_access_point
  aim-IsSilent w = ground arith

  evaluate-IsSilent :
      (now : ℕ) (w : Wifi)
      → IsSilent w (evaluate_better_access_point compiled now r.scan r.current w).0
  unfolding evaluate_better_access_point prepare
  evaluate-IsSilent now w = ground arith

  connect_with-Honest :
      (cs : List Credential) (w : Wifi) → Honest w → Honest (connect_with compiled r cs w)
  unfolding connect_with
  connect_with-Honest [] w h = h
  connect_with-Honest (c ∷ cs) w h =
      silent-Honest (dropped w) (aim compiled r (dropped w)) (aim-IsSilent (dropped w))
        (nothing_up false)

  start_connect-Honest : (w : Wifi) → Honest w → Honest (start_connect compiled r w)
  unfolding start_connect
  start_connect-Honest w h = connect_with-Honest (configured compiled w.cfg) w h

  handle_connecting-Honest : (w : Wifi) → Honest w → Honest (handle_connecting r w)
  unfolding handle_connecting schedule_retry
  handle_connecting-Honest w h = ground arith

  note_loss-Honest : (w : Wifi) → Honest w → Honest (note_loss r (note_time r w))
  unfolding schedule_retry is_connected
  note_loss-Honest w h = ground arith

  switch-Honest : (v : Wifi × Bool) → Honest v.0 → Honest (switch_if_better compiled r v)
  switch-Honest (w, true) h = start_connect-Honest (send (disconnect ∷ []) w) h
  switch-Honest (w, false) h = h

  roam-Honest : (w : Wifi) → Honest w → Honest (roam compiled r w)
  unfolding roam
  roam-Honest w h = elim (Bool-cases (must_stay r w)) [
    | inl stay ↦ rw (stay, roam) h
    | inr go ↦
        let tried = record w {
          last_roam_check_ms = r.now;
          signal_strength = r.rssi_text;
          last_rssi_roam_attempt_ms = r.now;
        } in
        rw (go, roam)
          (switch-Honest (evaluate_better_access_point compiled r.later r.scan r.current tried)
            (silent-Honest tried _ (evaluate-IsSilent r.later tried) h))
  ]

  handle_in-Honest : (s : WifiState) (w : Wifi) → Honest w → Honest (handle_in s compiled r w)
  unfolding handle_in handle_backoff handle_connected
  handle_in-Honest idle w h = h
  handle_in-Honest connecting w h = handle_connecting-Honest w h
  handle_in-Honest backoff_waiting w h = elim (Bool-cases (leb w.next_action_at_ms r.now)) [
    | inl due ↦ rw (due, handle_backoff) (start_connect-Honest w h)
    | inr early ↦ rw (early, handle_backoff) h
  ]
  handle_in-Honest connected w h =
      let noted = note_loss-Honest w h in
      elim (Bool-cases (is_roam_due r w)) [
        | inl due ↦ rw (due, handle_connected) (roam-Honest (note_loss r (note_time r w)) noted)
        | inr early ↦ rw (early, handle_connected) noted
      ]

on_wifi_event-Honest : (e : Event) (w : Wifi) → Honest w → Honest (on_wifi_event e w)
unfolding on_wifi_event
on_wifi_event-Honest (associated now) w h = ground arith
on_wifi_event-Honest (got_ip true) w h = ground arith
on_wifi_event-Honest (got_ip false) w h = ground arith
on_wifi_event-Honest (lost reason now) w h = nothing_up false

step-Honest : (compiled : Compiled) (c : Call) (w : Wifi) → Honest w → Honest (step compiled c w)
unfolding step begin handle
step-Honest compiled (begun cfg r) w h = start_connect-Honest compiled r _ (nothing_up false)
step-Honest compiled (handled r) w h = handle_in-Honest compiled r w.state w h
step-Honest compiled (happened e) w h = on_wifi_event-Honest e w h
step-Honest compiled (others mqtt busy) w h = record { ready = h.ready; address = h.address }

run-Honest :
    (compiled : Compiled) (cs : List Call) (w : Wifi) → Honest w → Honest (run compiled cs w)
unfolding run
run-Honest compiled [] w h = h
run-Honest compiled (c ∷ cs) w h = run-Honest compiled cs _ (step-Honest compiled c w h)

-- After any sequence of calls of a new manager, events of the radio and changes of the other
-- components' bits: the bit for the IP is set only with the bit for Wi-Fi, and only while the
-- manager is associated and has an address.
pub run-new-IsHonest :
    (compiled : Compiled) (cs : List Call)
    → IsHonest
        (run compiled cs new_wifi).bits
        (run compiled cs new_wifi).got_ip
        (run compiled cs new_wifi).associated
run-new-IsHonest compiled cs = run-Honest compiled cs new_wifi (nothing_up false)
