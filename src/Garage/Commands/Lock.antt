-- ===== src/Garage/Commands/Lock.antt =====
-- What `lock`, `unlock` and `stop` do to the published state of the door.
use io_tsmart_sys_core.Base.{true, false, ◌≡◌, ◌++◌, arith}
use io_tsmart_sys_core.Capability.{update_state}
use io_tsmart_sys_core.Garage.{Garage, Reading, handle, is_closed, is_open, closed}
use io_tsmart_sys_core.Garage.Endpoints.{handle-Follows, locked-handle}
use io_tsmart_sys_core.Garage.Commands.{ArduinoString, lacks, lock_suffix, lock, stop, unlock}

module _ (A : ArduinoString) where
  open A use {append, replace, append_lem, replace_absent, replace_suffix}

  -- `lock` publishes the state with the suffix; `stop` after it publishes and restores the state
  -- from before the lock, if that has no underscore; the relays and the delays apart, nothing else
  -- of the state changes.
  pub stop-lock :
      (g : Garage)
      → lacks b'_' g.current_state ≡ true
      → ((lock A g).capability ≡ update_state g.capability (g.current_state ++ lock_suffix))
        × ((stop A (lock A g)).current_state ≡ g.current_state)
        × ((stop A (lock A g)).capability ≡ update_state (lock A g).capability g.current_state)
        × ((stop A (lock A g)).requested_direction ≡ g.requested_direction)
        × ((stop A (lock A g)).locked ≡ true)
  unfolding lock stop
  stop-lock g h =
      ground (arith, append_lem g.current_state lock_suffix, replace_suffix g.current_state h)

  -- `unlock` publishes twice, and both times the same state.
  pub unlock_publishes_twice :
      (g : Garage)
      → lacks b'_' g.current_state ≡ true
      → ((unlock A g).capability
          ≡ update_state (update_state g.capability g.current_state) g.current_state)
        × ((unlock A g).current_state ≡ g.current_state)
        × ((unlock A g).locked ≡ false)
  unfolding unlock stop
  unlock_publishes_twice g h = ground (arith, replace_absent g.current_state h)

  -- A lock is not remembered in the published state: the next pass that finds the door stably at
  -- the closed end alone gives plain `closed`, though the door is still locked.
  pub handle_drops_lock :
      (r : Reading) (g : Garage)
      → is_open (handle r (lock A g)) ≡ false
      → is_closed (handle r (lock A g)) ≡ true
      → ((handle r (lock A g)).current_state ≡ closed) × ((handle r (lock A g)).locked ≡ true)
  unfolding lock
  handle_drops_lock r g o c =
      (((handle-Follows r (lock A g)).at_close o c).0, locked-handle r (lock A g))
