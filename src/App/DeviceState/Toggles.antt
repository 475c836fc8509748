-- ===== src/App/DeviceState/Toggles.antt =====
-- What the LED of src/App/Managers/DeviceStateManager.cpp is told after a connection.
use mathlib.Core.List.{append_assoc, append-nil}
use native.Mathlib.Nat.{suc-add, zero-add}
use io_tsmart_sys_core.Base.{
  ℕ, zero, suc, ◌+◌, ◌≤◌, true, false, ◌≡◌, refl, sym, ap, ◌∙◌, inl, inr, List, [], ◌∷◌, ◌++◌, ltb,
  sub32, arith, Bool-cases,
}
use io_tsmart_sys_core.Wifi.{WifiState, idle, connecting, connected, backoff_waiting}
use io_tsmart_sys_core.App.DeviceState.{
  DeviceStateManager, LedCommand, led_toggle, Pass, toggle_every, handle_idle, show_network, noted,
  handle,
}

unfoldable pub run : List Pass → DeviceStateManager → DeviceStateManager
run [] m = m
run (p ∷ ps) m = run ps (handle p m)

abbrev pub NoProvisioning : List Pass → Type 0
NoProvisioning [] = Unit {0}
NoProvisioning (p ∷ ps) = (p.provisioning ≡ false) × NoProvisioning ps

abbrev pub offline : WifiState → ℕ
offline connected = 0
offline _ = 1

-- How many passes find no connection.
unfoldable pub offline_passes : List Pass → ℕ
offline_passes [] = 0
offline_passes (p ∷ ps) = offline p.wifi + offline_passes ps

abbrev pub toggles : ℕ → List LedCommand
toggles zero = []
toggles (suc n) = led_toggle ∷ toggles n

-- The LED was toggled at most so often, and is still taken for lit.
pub record IsToggled (most : ℕ) (m n : DeviceStateManager) : Type 0 where
  pub still_on : n.is_on ≡ true
  pub times : ℕ
  pub bounded : times ≤ most
  pub sent : n.sent ≡ m.sent ++ toggles times

toggle_every-IsToggled :
    (interval now : ℕ) (m : DeviceStateManager)
    → m.is_on ≡ true
    → IsToggled 1 m (toggle_every interval now m)
unfolding toggle_every
toggle_every-IsToggled interval now m on =
    elim (Bool-cases (ltb (sub32 now m.last_toggle_ms) interval)) [
      | inl early ↦ rw early (record {
        still_on = on;
        times = 0;
        bounded = omega arith;
        sent = sym (append-nil m.sent);
      })
      | inr due ↦ rw due (record { still_on = on; times = 1; bounded = omega arith; sent = refl })
    ]

idle_kept : (m : DeviceStateManager) → m.is_on ≡ true → handle_idle m ≡ m
unfolding handle_idle
idle_kept m on = simp on refl

untold :
    (most : ℕ) (m n : DeviceStateManager) → n.is_on ≡ true → n.sent ≡ m.sent → IsToggled most m n
untold most m n on same = record {
  still_on = on;
  times = 0;
  bounded = omega arith;
  sent = same ∙ sym (append-nil m.sent);
}

-- A pass notes the state of the network.
abbrev noticed : Pass → DeviceStateManager → DeviceStateManager
noticed p m = record m { state = noted p.wifi m.state }

show_network-IsToggled :
    (w : WifiState) (now : ℕ) (m : DeviceStateManager)
    → m.is_on ≡ true
    → IsToggled (offline w) m (show_network w now m)
unfolding show_network
show_network-IsToggled idle now m on = toggle_every-IsToggled 100 now m on
show_network-IsToggled connecting now m on = toggle_every-IsToggled 500 now m on
show_network-IsToggled backoff_waiting now m on = toggle_every-IsToggled 100 now m on
show_network-IsToggled connected now m on = rw (idle_kept m on) (untold 0 m m on refl)

handle_with_led :
    (p : Pass) (m : DeviceStateManager)
    → p.provisioning ≡ false
    → m.has_led ≡ true
    → handle p m ≡ show_network p.wifi p.now (noticed p m)
unfolding handle
handle_with_led p m network led = ground arith

handle_without_led :
    (p : Pass) (m : DeviceStateManager)
    → p.provisioning ≡ false
    → m.has_led ≡ false
    → handle p m ≡ noticed p m
unfolding handle
handle_without_led p m network no_led = ground arith

handle-IsToggled :
    (p : Pass) (m : DeviceStateManager)
    → p.provisioning ≡ false
    → m.is_on ≡ true
    → IsToggled (offline p.wifi) m (handle p m)
handle-IsToggled p m network on = elim (Bool-cases m.has_led) [
  | inl led ↦
      let shown = show_network-IsToggled p.wifi p.now (noticed p m) on in
      rw (handle_with_led p m network led) (record {
        still_on = shown.still_on;
        times = shown.times;
        bounded = shown.bounded;
        sent = shown.sent;
      })
  | inr no_led ↦
      rw (handle_without_led p m network no_led) (untold (offline p.wifi) m (noticed p m) on refl)
]

toggles-add : (a b : ℕ) → toggles a ++ toggles b ≡ toggles (a + b)
toggles-add zero b = rw (zero-add b) refl
toggles-add (suc a) b = rw (suc-add a b) (ap (◌∷◌ led_toggle) (toggles-add a b))

pub run-IsToggled :
    (ps : List Pass) (m : DeviceStateManager)
    → NoProvisioning ps
    → m.is_on ≡ true
    → IsToggled (offline_passes ps) m (run ps m)
unfolding run offline_passes
run-IsToggled [] m n on = record {
  still_on = on;
  times = 0;
  bounded = omega arith;
  sent = sym (append-nil m.sent);
}
run-IsToggled (p ∷ ps) m n on =
    let first = handle-IsToggled p m n.0 on in
    let rest = run-IsToggled ps (handle p m) n.1 first.still_on in
    record {
      still_on = rest.still_on;
      times = first.times + rest.times;
      bounded = omega (arith, first.bounded, rest.bounded);
      sent =
          rest.sent
          ∙ ap (λ (t : List LedCommand). t ++ toggles rest.times) first.sent
          ∙ append_assoc m.sent (toggles first.times) (toggles rest.times)
          ∙ ap (◌++◌ m.sent) (toggles-add first.times rest.times);
    }
