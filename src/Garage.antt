-- ===== src/Garage.antt =====
-- src/Contracts/Capabilities/GarageControlCapability.h and
-- src/Core/Capabilities/GarageControlCapability.cpp: the garage door and its end-stop sensors.
pub mod Commands
mod Tests
pub mod Endpoints
pub mod Debounce
pub mod Events
use io_tsmart_sys_core.Base.{
  is_empty, ℕ, Bool, true, false, not, ◌&&◌, List, [], ◌∷◌, Text, codes, text_eq, leb, ◌==◌,
  if◌then◌else◌, sub64,
}
use io_tsmart_sys_core.Base.Int.{ℤ, pos, negsuc}
use io_tsmart_sys_core.Capability.{Capability, update_state}

pub data Direction : Type 0 where
  no_direction to_open to_close : Direction

abbrev pub opened : Text
opened = codes "opened"

abbrev pub closed : Text
closed = codes "closed"

abbrev pub opening : Text
opening = codes "opening"

abbrev pub closing : Text
closing = codes "closing"

abbrev pub unknown : Text
unknown = codes "unknown"

-- The relays; `open_relay` is `command_hardware_adapter`.
pub data Relay : Type 0 where
  open_relay close_relay stop_unlock_relay lock_relay : Relay

-- What the relays and the delay function see, oldest first.
pub data Effect : Type 0 where
  switches : Relay → Text → Effect
  waits : ℤ → Effect

pub record Garage : Type 0 where
  pub capability : Capability
  pub locked : Bool
  pub current_state : Text
  pub last_state : Text
  pub debounce_time_ms : ℤ
  pub sensor_debounce_time_ms : ℤ
  pub raw_open_state : ℕ
  pub raw_close_state : ℕ
  pub stable_open_state : ℕ
  pub stable_close_state : ℕ
  pub open_stable_initialized : Bool
  pub close_stable_initialized : Bool
  pub open_last_raw_change_ms : ℕ
  pub close_last_raw_change_ms : ℕ
  pub requested_direction : Direction
  pub has_open_sensor : Bool
  pub has_close_sensor : Bool
  pub effects : List Effect

-- What one pass of the loop reads: the clock and the two input pins.
pub record Reading : Type 0 where
  pub now : ℕ
  pub open_level : ℕ
  pub close_level : ℕ

-- The constructor, with the field initialisers of the header.
unfoldable pub new : Capability → ℤ → ℤ → Bool → Bool → Garage
new c debounce sensor_debounce has_open has_close = record {
  capability = c;
  locked = false;
  current_state = unknown;
  last_state = unknown;
  debounce_time_ms = debounce;
  sensor_debounce_time_ms = sensor_debounce;
  raw_open_state = 1;
  raw_close_state = 1;
  stable_open_state = 1;
  stable_close_state = 1;
  open_stable_initialized = false;
  close_stable_initialized = false;
  open_last_raw_change_ms = 0;
  close_last_raw_change_ms = 0;
  requested_direction = no_direction;
  has_open_sensor = has_open;
  has_close_sensor = has_close;
  effects = [];
}

setup_open : Reading → Garage → Garage
setup_open r g =
    if g.has_open_sensor
    then record g {
      raw_open_state = r.open_level;
      open_stable_initialized = false;
      open_last_raw_change_ms = r.now;
    }
    else g

setup_close : Reading → Garage → Garage
setup_close r g =
    if g.has_close_sensor
    then record g {
      raw_close_state = r.close_level;
      close_stable_initialized = false;
      close_last_raw_change_ms = r.now;
    }
    else g

-- The relays' own `setup` calls are the adapters' and leave this state alone.
unfoldable pub setup : Reading → Garage → Garage
unfolding setup_open setup_close
setup r g = setup_close r (setup_open r g)

abbrev pub is_open : Garage → Bool
is_open g = g.has_open_sensor && (g.open_stable_initialized && g.stable_open_state == 0)

abbrev pub is_closed : Garage → Bool
is_closed g = g.has_close_sensor && (g.close_stable_initialized && g.stable_close_state == 0)

abbrev pub is_current_state : Garage → Text → Bool
is_current_state g state = text_eq g.current_state state

abbrev pub is_opening : Garage → Bool
is_opening g = is_current_state g opening

abbrev pub is_closing : Garage → Bool
is_closing g = is_current_state g closing

abbrev pub set_current_state : Garage → Text → Garage
set_current_state g state = record g { current_state = state }

-- `sensorDebounceTimeMs > 0 ? sensorDebounceTimeMs : 0`
abbrev pub debounce_threshold : ℤ → ℕ
debounce_threshold (pos n) = n
debounce_threshold (negsuc n) = 0

pub read_open : Reading → Garage → Garage
read_open r g =
    if g.has_open_sensor && not (r.open_level == g.raw_open_state)
    then record g { raw_open_state = r.open_level; open_last_raw_change_ms = r.now }
    else g

pub read_close : Reading → Garage → Garage
read_close r g =
    if g.has_close_sensor && not (r.close_level == g.raw_close_state)
    then record g { raw_close_state = r.close_level; close_last_raw_change_ms = r.now }
    else g

pub settle_open : ℕ → Garage → Garage
settle_open now g =
    if g.has_open_sensor
      && leb (debounce_threshold g.sensor_debounce_time_ms) (sub64 now g.open_last_raw_change_ms)
    then record g { stable_open_state = g.raw_open_state; open_stable_initialized = true }
    else g

pub settle_close : ℕ → Garage → Garage
settle_close now g =
    if g.has_close_sensor
      && leb (debounce_threshold g.sensor_debounce_time_ms) (sub64 now g.close_last_raw_change_ms)
    then record g { stable_close_state = g.raw_close_state; close_stable_initialized = true }
    else g

unfoldable pub update_stable_sensor_states : ℕ → Garage → Garage
unfolding settle_open settle_close
update_stable_sensor_states now g = settle_close now (settle_open now g)

-- The last part of the evaluation: no stable active endpoint, and no requested direction.
infer_movement : Garage → Garage
infer_movement g =
    if not g.has_open_sensor && not g.has_close_sensor
    then (if not (is_opening g) && not (is_closing g) then set_current_state g unknown else g)
    else if is_current_state g closed
    then set_current_state g opening
    else if is_current_state g opened
    then set_current_state g closing
    else g

between_endpoints : Direction → Garage → Garage
unfolding infer_movement
between_endpoints to_open g = set_current_state g opening
between_endpoints to_close g = set_current_state g closing
between_endpoints no_direction g = infer_movement g

abbrev at_endpoint : Text → Garage → Garage
at_endpoint state g = record g { current_state = state; requested_direction = no_direction }

unfoldable pub evaluate_state_from_sensors : Garage → Garage
unfolding between_endpoints
evaluate_state_from_sensors g =
    if is_open g && is_closed g
    then at_endpoint unknown g
    else if is_closed g
    then at_endpoint closed g
    else if is_open g
    then at_endpoint opened g
    else between_endpoints g.requested_direction g

unfoldable pub handle_sensor_state : Reading → Garage → Garage
unfolding read_open read_close update_stable_sensor_states evaluate_state_from_sensors
handle_sensor_state r g =
    evaluate_state_from_sensors (update_stable_sensor_states r.now (read_close r (read_open r g)))

abbrev pub publish : Garage → Garage
publish g = record g { capability = update_state g.capability g.current_state }

unfoldable pub publish_change : Garage → Garage
unfolding is_empty
publish_change g =
    if is_empty g.current_state
    then g
    else if text_eq g.current_state g.last_state
    then g
    else (let p = publish g in record p { last_state = p.current_state })

unfoldable pub handle : Reading → Garage → Garage
unfolding publish_change
handle r g = publish_change (handle_sensor_state r g)

-- The loop: one pass for each reading, in order.
unfoldable pub handle_all : List Reading → Garage → Garage
handle_all [] g = g
handle_all (r ∷ rs) g = handle_all rs (handle r g)
