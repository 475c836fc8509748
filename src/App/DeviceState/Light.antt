-- ===== src/App/DeviceState/Light.antt =====
-- Whether the LED of src/App/Managers/DeviceStateManager.cpp is lit when a connection comes back.
use io_tsmart_sys_core.Base.{
  ℕ, zero, suc, ◌≤◌, Bool, true, false, not, ◌≡◌, refl, ap, ◌∙◌, List, [], ◌∷◌, ◌++◌, arith,
  if◌then◌else◌,
}
use io_tsmart_sys_core.Wifi.{connected}
use io_tsmart_sys_core.App.DeviceState.{
  DeviceStateManager, LedCommand, Pass, show_network, handle_idle, handle,
}
use io_tsmart_sys_core.App.DeviceState.Output.{apply_command, is_lit}
use io_tsmart_sys_core.App.DeviceState.Toggles.{
  run, NoProvisioning, offline_passes, toggles, IsToggled, run-IsToggled,
}

-- Every pass finds the device connected, and no provisioning.
abbrev pub AllConnected : List Pass → Type 0
AllConnected [] = Unit {0}
AllConnected (p ∷ ps) = (p.provisioning ≡ false) × (p.wifi ≡ connected) × AllConnected ps

connected_pass :
    (q : Pass) (m : DeviceStateManager)
    → q.provisioning ≡ false
    → q.wifi ≡ connected
    → m.is_on ≡ true
    → ((handle q m).is_on ≡ true) × ((handle q m).sent ≡ m.sent)
unfolding handle show_network handle_idle
connected_pass q m network up on = ground arith

connected-kept :
    (qs : List Pass) (m : DeviceStateManager)
    → AllConnected qs
    → m.is_on ≡ true
    → ((run qs m).is_on ≡ true) × ((run qs m).sent ≡ m.sent)
unfolding run
connected-kept [] m c on = (on, refl)
connected-kept (q ∷ qs) m c on =
    let first : ((handle q m).is_on ≡ true) × ((handle q m).sent ≡ m.sent) =
      connected_pass q m c.0 c.1 on in
    let rest = connected-kept qs (handle q m) c.2 first.0 in (rest.0, rest.1 ∙ first.1)

-- The level of the pin after some commands.
unfoldable pub level_after : Bool → List LedCommand → Bool → Bool
level_after high_is_on [] level = level
level_after high_is_on (c ∷ cs) level = level_after high_is_on cs (apply_command high_is_on c level)

level_after-append :
    (high_is_on : Bool) (cs ds : List LedCommand) (level : Bool)
    → level_after high_is_on (cs ++ ds) level
      ≡ level_after high_is_on ds (level_after high_is_on cs level)
unfolding level_after
level_after-append high_is_on [] ds level = refl
level_after-append high_is_on (c ∷ cs) ds level =
    level_after-append high_is_on cs ds (apply_command high_is_on c level)

abbrev pub odd : ℕ → Bool
odd zero = false
odd (suc n) = not (odd n)

is_lit-toggles :
    (high_is_on : Bool) (n : ℕ) (level : Bool)
    → is_lit high_is_on (level_after high_is_on (toggles n) level)
      ≡ (if odd n then not (is_lit high_is_on level) else is_lit high_is_on level)
unfolding level_after is_lit apply_command
is_lit-toggles high_is_on zero level = refl
is_lit-toggles high_is_on (suc n) level = ground (arith, is_lit-toggles high_is_on n (not level))

-- Whether the LED is lit after the commands that a manager sent, on a pin that was at `level`.
abbrev pub lit_by : Bool → Bool → DeviceStateManager → Bool
lit_by high_is_on level m = is_lit high_is_on (level_after high_is_on m.sent level)

-- Between the managers `m` and `n` the LED was toggled at most so often; it is still taken for lit,
-- and it is lit as before if the number of toggles is even, and the other way round if it is odd.
pub record IsMisled (most : ℕ) (m n : DeviceStateManager) : Type 0 where
  pub still_on : n.is_on ≡ true
  pub times : ℕ
  pub bounded : times ≤ most
  pub sent : n.sent ≡ m.sent ++ toggles times
  pub light :
      (high_is_on level : Bool)
      → lit_by high_is_on level n
        ≡ (if odd times then not (lit_by high_is_on level m) else lit_by high_is_on level m)

IsToggled-IsMisled : (most : ℕ) (m n : DeviceStateManager) → IsToggled most m n → IsMisled most m n
IsToggled-IsMisled most m n t = record {
  still_on = t.still_on;
  times = t.times;
  bounded = t.bounded;
  sent = t.sent;
  light = λ high_is_on level.
      ap (λ cs. is_lit high_is_on (level_after high_is_on cs level)) t.sent
      ∙ ap (is_lit high_is_on) (level_after-append high_is_on m.sent (toggles t.times) level)
      ∙ is_lit-toggles high_is_on t.times (level_after high_is_on m.sent level);
}

-- Once the LED is taken for lit, and while no provisioning runs: over any passes followed by any
-- passes that find the device connected, the LED is told nothing but toggles, at most one for each
-- of the first passes that finds no connection. At the end it is lit as before if the number of
-- toggles is even, and the other way round if it is odd, whatever the polarity and the first level
-- of its pin, and is still taken for lit. So after an odd number a lit LED is dark, and stays dark
-- while the device is connected.
pub lit_only_toggles :
    (ps qs : List Pass) (m : DeviceStateManager)
    → NoProvisioning ps
    → AllConnected qs
    → m.is_on ≡ true
    → IsMisled (offline_passes ps) m (run qs (run ps m))
lit_only_toggles ps qs m n c on =
    let t = run-IsToggled ps m n on in
    let kept = connected-kept qs (run ps m) c t.still_on in
    IsToggled-IsMisled (offline_passes ps) m (run qs (run ps m))
      (record { still_on = kept.0; times = t.times; bounded = t.bounded; sent = kept.1 ∙ t.sent })
