-- ===== src/Garage/Endpoints.antt =====
-- What one pass of `GarageControlCapability::handle` makes of the stable sensors and of the
-- requested direction.
use io_tsmart_sys_core.Base.{◌∙◌, true, false, ◌≡◌, subst, arith}
use io_tsmart_sys_core.Garage.{
  Garage, Reading, Direction, no_direction, to_open, to_close, opened, closed, opening, closing,
  unknown, is_open, is_closed, read_open, read_close, update_stable_sensor_states,
  evaluate_state_from_sensors, handle_sensor_state, publish_change, handle,
}

-- The door's state `g'` follows from its stable sensors and the direction `d` requested before.
pub record Follows (d : Direction) (g' : Garage) : Type 0 where
  pub contradictory :
      is_open g' ≡ true
      → is_closed g' ≡ true
      → (g'.current_state ≡ unknown) × (g'.requested_direction ≡ no_direction)
  pub at_close :
      is_open g' ≡ false
      → is_closed g' ≡ true
      → (g'.current_state ≡ closed) × (g'.requested_direction ≡ no_direction)
  pub at_open :
      is_open g' ≡ true
      → is_closed g' ≡ false
      → (g'.current_state ≡ opened) × (g'.requested_direction ≡ no_direction)
  pub commanded_open :
      is_open g' ≡ false
      → is_closed g' ≡ false
      → d ≡ to_open
      → (g'.current_state ≡ opening) × (g'.requested_direction ≡ to_open)
  pub commanded_close :
      is_open g' ≡ false
      → is_closed g' ≡ false
      → d ≡ to_close
      → (g'.current_state ≡ closing) × (g'.requested_direction ≡ to_close)

evaluate-Follows : (g : Garage) → Follows g.requested_direction (evaluate_state_from_sensors g)
unfolding evaluate_state_from_sensors
evaluate-Follows g = ground arith

publish_change-Follows : (d : Direction) (g : Garage) → Follows d g → Follows d (publish_change g)
unfolding publish_change
publish_change-Follows d g f = ground arith

-- The part of a pass before the evaluation.
abbrev pub sense : Reading → Garage → Garage
sense r g = update_stable_sensor_states r.now (read_close r (read_open r g))

direction-sense :
    (r : Reading) (g : Garage) → (sense r g).requested_direction ≡ g.requested_direction
unfolding update_stable_sensor_states read_close read_open
direction-sense r g = ground arith

-- After every pass: both endpoints stably active give `unknown`, one gives its terminal state, and
-- each of these drops the requested direction; with neither active a requested direction gives its
-- movement state and is kept.
pub handle-Follows : (r : Reading) (g : Garage) → Follows g.requested_direction (handle r g)
unfolding handle handle_sensor_state
handle-Follows r g =
    let evaluated = evaluate_state_from_sensors (sense r g) in
    publish_change-Follows g.requested_direction evaluated
      (subst (λ d. Follows d evaluated) (direction-sense r g) (evaluate-Follows (sense r g)))

locked-publish_change : (g : Garage) → (publish_change g).locked ≡ g.locked
unfolding publish_change
locked-publish_change g = ground arith

locked-evaluate : (g : Garage) → (evaluate_state_from_sensors g).locked ≡ g.locked
unfolding evaluate_state_from_sensors
locked-evaluate g = ground arith

locked-sense : (r : Reading) (g : Garage) → (sense r g).locked ≡ g.locked
unfolding update_stable_sensor_states read_close read_open
locked-sense r g = ground arith

pub locked-handle : (r : Reading) (g : Garage) → (handle r g).locked ≡ g.locked
unfolding handle handle_sensor_state
locked-handle r g =
    locked-publish_change (evaluate_state_from_sensors (sense r g))
    ∙ locked-evaluate (sense r g)
    ∙ locked-sense r g
