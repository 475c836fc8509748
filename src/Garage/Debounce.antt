-- ===== src/Garage/Debounce.antt =====
-- The debounce of the end-stop sensors, over any number of passes of the loop.
use io_tsmart_sys_core.Base.{◌+◌, ap, u64_mod, ◌≢◌, true, ℕ, ◌≤◌, ◌<◌, ◌≡◌, List, [], ◌∷◌, arith}
use io_tsmart_sys_core.Garage.{
  handle_all, Garage, Reading, read_open, read_close, settle_open, settle_close,
  update_stable_sensor_states, evaluate_state_from_sensors, handle_sensor_state, publish_change,
  handle, debounce_threshold,
}

abbrev pub threshold : Garage → ℕ
threshold g = debounce_threshold g.sensor_debounce_time_ms

-- The readings come in order, from `lo` on and before `hi`.
abbrev pub Window : ℕ → ℕ → List Reading → Type 0
Window lo hi [] = Unit {0}
Window lo hi (r ∷ rs) = (lo ≤ r.now) × (r.now < hi) × Window r.now hi rs

-- The fields of the open end's sensor: `g'` has those of `g`.
record SameOpen (g g' : Garage) : Type 0 where
  has : g'.has_open_sensor ≡ g.has_open_sensor
  raw : g'.raw_open_state ≡ g.raw_open_state
  since : g'.open_last_raw_change_ms ≡ g.open_last_raw_change_ms
  stable : g'.stable_open_state ≡ g.stable_open_state
  initialized : g'.open_stable_initialized ≡ g.open_stable_initialized
  debounce : g'.sensor_debounce_time_ms ≡ g.sensor_debounce_time_ms

read_close-SameOpen : (r : Reading) (g : Garage) → SameOpen g (read_close r g)
unfolding read_close
read_close-SameOpen r g = ground arith

settle_close-SameOpen : (now : ℕ) (g : Garage) → SameOpen g (settle_close now g)
unfolding settle_close
settle_close-SameOpen now g = ground arith

evaluate-SameOpen : (g : Garage) → SameOpen g (evaluate_state_from_sensors g)
unfolding evaluate_state_from_sensors
evaluate-SameOpen g = ground arith

publish_change-SameOpen : (g : Garage) → SameOpen g (publish_change g)
unfolding publish_change
publish_change-SameOpen g = ground arith

-- What a pass does to the open end's sensor: it notes the raw level, then settles it.
abbrev sensed : Reading → Garage → Garage
sensed r g = settle_open r.now (read_close r (read_open r g))

handle-SameOpen : (r : Reading) (g : Garage) → SameOpen (sensed r g) (handle r g)
unfolding handle handle_sensor_state update_stable_sensor_states
handle-SameOpen r g = ground (
  arith,
  settle_close-SameOpen r.now (sensed r g),
  evaluate-SameOpen (settle_close r.now (sensed r g)),
  publish_change-SameOpen (evaluate_state_from_sensors (settle_close r.now (sensed r g))),
)

-- The last raw change lies in [t, now].
record Young (t now : ℕ) (g : Garage) : Type 0 where
  from : t ≤ g.open_last_raw_change_ms
  until : g.open_last_raw_change_ms ≤ now

record SameStable (g g' : Garage) : Type 0 where
  stable : g'.stable_open_state ≡ g.stable_open_state
  initialized : g'.open_stable_initialized ≡ g.open_stable_initialized
  debounce : g'.sensor_debounce_time_ms ≡ g.sensor_debounce_time_ms

sensed-Young :
    (t lo : ℕ) (r : Reading) (g : Garage)
    → Young t lo g
    → lo ≤ r.now
    → r.now < t + threshold g
    → r.now < u64_mod
    → Young t r.now (sensed r g) × SameStable g (sensed r g)
unfolding read_open read_close settle_open
sensed-Young t lo r g y h k m = ground arith

handle-Young :
    (t lo : ℕ) (r : Reading) (g : Garage)
    → Young t lo g
    → lo ≤ r.now
    → r.now < t + threshold g
    → r.now < u64_mod
    → Young t r.now (handle r g) × SameStable g (handle r g)
handle-Young t lo r g y h k m = ground (arith, sensed-Young t lo r g y h k m, handle-SameOpen r g)

handle_all-SameStable :
    (t lo hi : ℕ) (rs : List Reading) (g : Garage)
    → Young t lo g
    → hi ≤ t + threshold g
    → hi ≤ u64_mod
    → Window lo hi rs
    → SameStable g (handle_all rs g)
unfolding handle_all
handle_all-SameStable t lo hi [] g y h m w = ground arith
handle_all-SameStable t lo hi (r ∷ rs) g y h m (below, above, rest) =
    let (young, same) = handle-Young t lo r g y below (omega arith) (omega arith) in
    let e = ap debounce_threshold same.debounce in
    let later = handle_all-SameStable t r.now hi rs (handle r g) young (omega (arith, e)) m rest in
    ground (arith, same, later)

-- While every reading comes less than the debounce time after a raw change at time `t`, no number
-- of passes and no pattern of levels changes the stable reading of the open end, or makes it count
-- as initialised. The clock must not pass 2^64 ms.
pub bounces_hidden :
    (rs : List Reading) (g : Garage) (hi : ℕ)
    → hi ≤ g.open_last_raw_change_ms + threshold g
    → hi ≤ u64_mod
    → Window g.open_last_raw_change_ms hi rs
    → ((handle_all rs g).stable_open_state ≡ g.stable_open_state)
      × ((handle_all rs g).open_stable_initialized ≡ g.open_stable_initialized)
bounces_hidden rs g hi h m w =
    let s =
      handle_all-SameStable t t hi rs g (record { from = omega arith; until = omega arith }) h m
        w in
    (s.stable, s.initialized)
  where
    t : ℕ
    t = g.open_last_raw_change_ms

-- A pass that reads the level already noted, at least the debounce time after the last raw change,
-- makes that level the stable reading; one that reads another level notes it and its time, and
-- keeps the stable reading (if the debounce time is not 0).
pub open_settles :
    (r : Reading) (g : Garage)
    → g.has_open_sensor ≡ true
    → g.open_last_raw_change_ms ≤ r.now
    → r.now < u64_mod
    → (r.open_level ≡ g.raw_open_state
        → threshold g + g.open_last_raw_change_ms ≤ r.now
        → ((handle r g).stable_open_state ≡ r.open_level)
          × ((handle r g).open_stable_initialized ≡ true))
      × (r.open_level ≢ g.raw_open_state
          → 0 < threshold g
          → ((handle r g).raw_open_state ≡ r.open_level)
            × ((handle r g).open_last_raw_change_ms ≡ r.now)
            × ((handle r g).stable_open_state ≡ g.stable_open_state))
unfolding read_open read_close settle_open
open_settles r g has h m = (
  λ same old. ground (arith, handle-SameOpen r g),
  λ other young. ground (arith, handle-SameOpen r g),
)
