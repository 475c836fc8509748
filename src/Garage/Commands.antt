-- ===== src/Garage/Commands.antt =====
-- The commands of `GarageControlCapability`: relay pulses, lock and unlock. Arduino's `String` is
-- not part of the repository, so what the code uses of it is a parameter.
pub mod Lock
use io_tsmart_sys_core.Base.{
  ℕ, Bool, true, false, not, ◌&&◌, ◌||◌, ◌≡◌, List, [], ◌∷◌, ◌++◌, Text, codes, text_eq, ◌==◌,
  if◌then◌else◌,
}
use io_tsmart_sys_core.Base.Int.{ℤ, pos}
use io_tsmart_sys_core.Garage.{
  Garage, Relay, open_relay, close_relay, stop_unlock_relay, lock_relay, Effect, switches, waits,
  to_open, to_close, set_current_state, publish,
}

abbrev pub lock_suffix : Text
lock_suffix = codes "_lock"

unfoldable pub lacks : ℕ → Text → Bool
lacks c [] = true
lacks c (x ∷ xs) = not (x == c) && lacks c xs

-- `String::operator+` and `String::replace`, which replaces every occurrence.
pub record ArduinoString : Type 0 where
  pub append : Text → Text → Text
  pub replace : Text → Text → Text → Text
  pub append_lem : (s t : Text) → append s t ≡ s ++ t
  pub replace_absent : (s : Text) → lacks b'_' s ≡ true → replace s lock_suffix [] ≡ s
  pub replace_suffix :
      (s : Text) → lacks b'_' s ≡ true → replace (s ++ lock_suffix) lock_suffix [] ≡ s

abbrev pub power_on : Text
power_on = codes "on"

abbrev pub power_off : Text
power_off = codes "off"

unfoldable pub simulate_press_command : Relay → Garage → Garage
simulate_press_command relay g = record g {
  effects =
      g.effects
      ++ switches relay power_on ∷ waits g.debounce_time_ms ∷ switches relay power_off ∷ [];
}

unfoldable pub press_open : Garage → Garage
unfolding simulate_press_command
press_open g = record (simulate_press_command open_relay g) { requested_direction = to_open }

unfoldable pub press_close : Garage → Garage
unfolding simulate_press_command
press_close g = record (simulate_press_command close_relay g) { requested_direction = to_close }

abbrev wait : ℕ → Garage → Garage
wait ms g = record g { effects = g.effects ++ waits (pos ms) ∷ [] }

module _ (A : ArduinoString) where
  unfoldable pub lock : Garage → Garage
  unfolding simulate_press_command
  lock g =
      let pressed = record (simulate_press_command lock_relay g) { locked = true } in
      publish (set_current_state pressed (A.append g.current_state lock_suffix))

  unfoldable pub stop : Garage → Garage
  unfolding simulate_press_command
  stop g =
      let pressed = simulate_press_command stop_unlock_relay g in
      publish (set_current_state pressed (A.replace g.current_state lock_suffix []))

  unfoldable pub unlock : Garage → Garage
  unfolding stop
  unlock g = record (stop (wait 500 (stop g))) { locked = false }

  -- `applyArgs` walks the arguments and does nothing with them.
  unfoldable pub apply_command : Text → Garage → Garage
  unfolding press_open press_close lock stop unlock
  apply_command command g =
      if text_eq command (codes "open")
      then press_open g
      else if text_eq command (codes "close")
      then press_close g
      else if text_eq command (codes "lock")
      then lock g
      else if text_eq command (codes "unlock") || text_eq command (codes "stop_unlock")
      then unlock g
      else if text_eq command (codes "stop")
      then stop g
      else g
