-- ===== src/Capability.antt =====
-- src/Contracts/Capabilities/ICapability.h: the state that every capability keeps, and how it
-- publishes. The event sink is the list of the events it has received, oldest first.
use io_tsmart_sys_core.Base.{Bool, true, false, List, [], ◌∷◌, ◌++◌, Text, if◌then◌else◌}

-- `CapabilityStateChanged`, as its three-argument constructor fills it.
pub record StateChanged : Type 0 where
  pub capability_name : Text
  pub value : Text
  pub type : Text

-- `has_sink` says whether `event_sink` is set.
pub record Capability : Type 0 where
  pub capability_name : Text
  pub type : Text
  pub value : Text
  pub has_sink : Bool
  pub changed : Bool
  pub events : List StateChanged

unfoldable pub read_state : Capability → Capability × StateChanged
read_state c = (record c { changed = false }, event)
  where
    event : StateChanged
    event = record { capability_name = c.capability_name; value = c.value; type = c.type }

unfoldable pub update_state : Capability → Text → Capability
unfolding read_state
update_state c value =
    let stored = record c { value = value; changed = true } in
    let (seen, ev) = read_state stored in
    if stored.has_sink
    then record seen { events = seen.events ++ ev ∷ []; changed = false }
    else stored
