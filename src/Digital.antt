-- ===== src/Digital.antt =====
-- `DebouncedDigitalCapability` and `LatchedTriggerCapability` of
-- src/Core/Capabilities/CapabilityHelpers.h, with the capabilities that only name their values: push
-- and touch button, PIR and clap sensor; and the door sensor.
pub mod Steady
mod Tests
use io_tsmart_sys_core.Base.{
  ℕ, Bool, true, false, not, ◌&&◌, List, [], ◌∷◌, Text, leb, ltb, if◌then◌else◌, u32, sub64,
}
use io_tsmart_sys_core.Capability.{Capability, update_state}

-- The two values that a sensor publishes.
pub record Values : Type 0 where
  pub active : Text
  pub inactive : Text

-- One pass: the clock and the input.
pub record Sample : Type 0 where
  pub now : ℕ
  pub level : Bool

abbrev pub same_level : Bool → Bool → Bool
same_level true b = b
same_level false b = not b

abbrev pub value_of : Values → Bool → Text
value_of v true = v.active
value_of v false = v.inactive

-- `_toleranceTimeMs` and the times are `unsigned long`, 32 bits on the ESP32; the clock has 64.
pub record Debounced : Type 0 where
  pub capability : Capability
  pub tolerance_ms : ℕ
  pub last_state : Bool
  pub last_change_ts : ℕ

unfoldable pub update_debounced : Values → Sample → Debounced → Debounced
update_debounced v s d =
    if same_level s.level d.last_state
    then record d { last_change_ts = u32 s.now }
    else if leb d.tolerance_ms (sub64 s.now d.last_change_ts)
    then record d {
      last_state = s.level;
      last_change_ts = u32 s.now;
      capability = update_state d.capability (value_of v s.level);
    }
    else d

unfoldable pub update_debounced_all : Values → List Sample → Debounced → Debounced
update_debounced_all v [] d = d
update_debounced_all v (s ∷ ss) d = update_debounced_all v ss (update_debounced v s d)

pub record Latched : Type 0 where
  pub capability : Capability
  pub tolerance_ms : ℕ
  pub latched : Bool
  pub last_published : Bool
  pub last_latched_ts : ℕ

unfoldable pub move_latch : Sample → Latched → Latched
move_latch s l =
    if s.level
    then record l { latched = true; last_latched_ts = u32 s.now }
    else if ltb l.tolerance_ms (sub64 s.now l.last_latched_ts)
    then record l { latched = false }
    else l

unfoldable pub publish_latch : Values → Latched → Latched
publish_latch v l = if same_level l.latched l.last_published then l else record l {
  capability = update_state l.capability (value_of v l.latched);
  last_published = l.latched;
}

unfoldable pub update_latched : Values → Sample → Latched → Latched
unfolding move_latch publish_latch
update_latched v s l = publish_latch v (move_latch s l)

unfoldable pub update_latched_all : Values → List Sample → Latched → Latched
update_latched_all v [] l = l
update_latched_all v (s ∷ ss) l = update_latched_all v ss (update_latched v s l)

-- `doorState` is the same as `lastDoorState`.
pub record Door : Type 0 where
  pub capability : Capability
  pub last_door_state : Bool

unfoldable pub handle_door : Values → Bool → Door → Door
handle_door v level d = if same_level level d.last_door_state then d else record d {
  last_door_state = level;
  capability = update_state d.capability (value_of v level);
}
