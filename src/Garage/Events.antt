-- ===== src/Garage/Events.antt =====
-- What `GarageControlCapability::handle` publishes, over any number of passes of the loop.
use mathlib.Core.List.{append-nil, append_assoc, map-append}
use io_tsmart_sys_core.Base.{
  ap, sym, ◌∙◌, inl, inr, true, ◌≡◌, refl, ◌≢◌, ◌⊎◌, List, [], ◌∷◌, ◌++◌, map, arith, Text,
  text_eq_iff,
}
use io_tsmart_sys_core.Capability.{Capability, StateChanged, update_state}
use io_tsmart_sys_core.Garage.{
  handle_all, Garage, Reading, read_open, read_close, update_stable_sensor_states,
  evaluate_state_from_sensors, handle_sensor_state, publish_change, handle,
}
use io_tsmart_sys_core.Garage.Endpoints.{sense}

-- The values published so far, oldest first.
abbrev pub values : Garage → List Text
values g = map (λ (e : StateChanged). e.value) g.capability.events

-- No value repeats the one before it, and the first is not `previous`.
abbrev pub Stutterless : Text → List Text → Type 0
Stutterless previous [] = Unit {0}
Stutterless previous (v ∷ vs) = (previous ≢ v) × Stutterless v vs

record SameOutput (g g' : Garage) : Type 0 where
  capability : g'.capability ≡ g.capability
  last : g'.last_state ≡ g.last_state

sense-SameOutput : (r : Reading) (g : Garage) → SameOutput g (sense r g)
unfolding update_stable_sensor_states read_close read_open
sense-SameOutput r g = ground arith

evaluate-SameOutput : (g : Garage) → SameOutput g (evaluate_state_from_sensors g)
unfolding evaluate_state_from_sensors
evaluate-SameOutput g = ground arith

-- Either nothing is published, or one value that differs from the last.
abbrev Published : Garage → Garage → Type 0
Published g g' =
    ((g'.capability ≡ g.capability) × (g'.last_state ≡ g.last_state))
    ⊎ ((g.last_state ≢ g'.last_state)
        × (g'.last_state ≡ g'.current_state)
        × (g'.capability ≡ update_state g.capability g'.last_state))

publish_change-Published : (g : Garage) → Published g (publish_change g)
unfolding publish_change
publish_change-Published g = ground (arith, text_eq_iff g.current_state g.last_state)

handle-Published : (r : Reading) (g : Garage) → Published g (handle r g)
unfolding handle handle_sensor_state
handle-Published r g = ground (
  arith,
  sense-SameOutput r g,
  evaluate-SameOutput (sense r g),
  publish_change-Published (evaluate_state_from_sensors (sense r g)),
)

update_state-value :
    (c : Capability) (v : Text)
    → c.has_sink ≡ true
    → ((update_state c v).has_sink ≡ true)
      × (map (λ (e : StateChanged). e.value) (update_state c v).events
          ≡ map (λ (e : StateChanged). e.value) c.events ++ v ∷ [])
unfolding update_state
update_state-value c v h = rw h (refl, map-append _ _ _)

abbrev Extends : Garage → Garage → Type 0
Extends g g' =
    (g'.capability.has_sink ≡ true)
    × (new : List Text) × (values g' ≡ values g ++ new)
    × Stutterless g.last_state new

-- What a list that follows `g'` makes of one that follows `g`, if one pass leads from `g` to `g'`.
Extends-Published :
    (g g' g'' : Garage)
    → g.capability.has_sink ≡ true
    → Published g g'
    → (g'.capability.has_sink ≡ true → Extends g' g'')
    → Extends g g''
Extends-Published g g' g'' h (inl (same, last)) later =
    let (sink, new, e, s) = later (ap (λ (c : Capability). c.has_sink) same ∙ h) in
    (sink, new, rw (← same) e, rw (← last) s)
Extends-Published g g' g'' h (inr (other, _, c)) later =
    let (keeps, value) = update_state-value g.capability g'.last_state h in
    let (sink, new, e, s) = later (ap (λ (c : Capability). c.has_sink) c ∙ keeps) in
    (
      sink,
      g'.last_state ∷ new,
      rw (e, c, value) (append_assoc (values g) (g'.last_state ∷ []) new),
      (other, s),
    )

handle_all-Extends :
    (rs : List Reading) (g : Garage) → g.capability.has_sink ≡ true → Extends g (handle_all rs g)
unfolding handle_all
handle_all-Extends [] g h = (h, [], sym (append-nil (values g)), tt)
handle_all-Extends (r ∷ rs) g h =
    Extends-Published g (handle r g) (handle_all rs (handle r g)) h (handle-Published r g)
      (handle_all-Extends rs (handle r g))

-- With an event sink, any number of passes extends the published values by a list in which no
-- value repeats the one before it, and whose first value differs from the last state handled.
pub handle_all-Stutterless :
    (rs : List Reading) (g : Garage)
    → g.capability.has_sink ≡ true
    → (new : List Text) × (values (handle_all rs g) ≡ values g ++ new)
      × Stutterless g.last_state new
handle_all-Stutterless rs g h = let (_, new, e, s) = handle_all-Extends rs g h in (new, e, s)
