-- ===== src/Commands/Dispatch/Routes.antt =====
-- Where src/Core/Commands/CapabilityCommandTransportDispatcher.cpp sends a command.
use io_tsmart_sys_core.Base.{
  ℕ, ◌+◌, ◌&&◌, Bool, true, false, ◌≡◌, refl, ap, ◌∙◌, inl, inr, List, [], ◌∷◌, ◌++◌, Option, none,
  some, Text, codes, text_eq, arith, Bool-cases,
}
use io_tsmart_sys_core.Commands.{
  CommandType, unknown, capability, system, SystemCommand, unknown_command, reboot, factory_reset,
  update_firmware, DeviceCommand, c_str, get_command_type, get_system_command,
}
use io_tsmart_sys_core.Commands.Dispatch.{
  CapabilityCommand, Item, Device, apply_to, capability_command, process_capability, process_system,
  process_by, is_system, is_known, dispatch_command,
}

-- No capability of this name takes commands.
abbrev pub Misses : {S : Type 0} → Text → List (Item S) → Type 0
Misses name [] = Unit {0}
Misses name (i ∷ is) = ((i.commandable && text_eq i.name name) ≡ false) × Misses name is

-- The command went to the first capability of this name that takes commands, and no other item was
-- touched; or there is none, and nothing was.
abbrev pub Reaches : {S : Type 0} → (S → S) → Text → List (Item S) → Option (List (Item S)) → Type 0
Reaches f name items none = Misses name items
Reaches {S} f name items (some result) =
    (before : List (Item S)) × (i : Item S) × (after : List (Item S)) × (items
      ≡ before ++ i ∷ after)
    × Misses name before
    × ((i.commandable && text_eq i.name name) ≡ true)
    × (result ≡ before ++ record i { state = f i.state } ∷ after)

abbrev pub restarts_of : SystemCommand → ℕ
restarts_of reboot = 1
restarts_of _ = 0

module _ {S : Type 0} (apply_command : CapabilityCommand → S → S) where
  Reaches-later :
      (name : Text) (c : CapabilityCommand) (i : Item S) (is : List (Item S))
      (o : Option (List (Item S)))
      → (i.commandable && text_eq i.name name) ≡ false
      → Reaches (apply_command c) name is o
      → Reaches (apply_command c) name (i ∷ is) (elim o [ none ↦ none | some js ↦ some (i ∷ js) ])
  Reaches-later name c i is none miss r = (miss, r)
  Reaches-later name c i is (some js) miss (before, j, after, splits, misses, hit, result) =
      (i ∷ before, j, after, ap (◌∷◌ i) splits, (miss, misses), hit, ap (◌∷◌ i) result)

  apply_to-Reaches :
      (name : Text) (c : CapabilityCommand) (items : List (Item S))
      → Reaches (apply_command c) name items (apply_to apply_command name c items)
  unfolding apply_to
  apply_to-Reaches name c [] = tt
  apply_to-Reaches name c (i ∷ is) = elim (Bool-cases (i.commandable && text_eq i.name name)) [
    | inl hit ↦ rw hit ([], i, is, refl, tt, hit, refl)
    | inr miss ↦ rw miss (Reaches-later name c i is _ miss (apply_to-Reaches name c is))
  ]

  known_system :
      (c : DeviceCommand) (d : Device S) (s : SystemCommand)
      → get_system_command c ≡ s
      → is_known s ≡ true
      → process_system apply_command c d
        ≡ (record d { restarts = d.restarts + restarts_of s }, true)
  unfolding process_system
  known_system c d unknown_command e k = cc
  known_system c d reboot e k = rw (e, process_system) refl
  known_system c d factory_reset e k = rw (e, process_system) (ground arith)
  known_system c d update_firmware e k = rw (e, process_system) (ground arith)

  -- A command for the system whatever its type says: the value names a system command.
  abbrev pub routed :
      Bool → SystemCommand → CommandType → DeviceCommand → Device S → Device S × Bool
  routed true s t c d = (record d { restarts = d.restarts + restarts_of s }, true)
  routed false s capability c d = process_capability apply_command c d
  routed false s _ c d = (d, false)

  typed_system :
      (c : DeviceCommand)
      → get_system_command (record c { type = codes "SYSTEM" }) ≡ get_system_command c
  unfolding get_system_command
  typed_system c = refl

  unknown_system :
      (c : DeviceCommand) (d : Device S)
      → is_known (get_system_command c) ≡ false
      → process_system apply_command c d ≡ (d, false)
  unfolding process_system
  unknown_system c d k = ground arith

  by_type :
      (t : CommandType) (c : DeviceCommand) (d : Device S)
      → is_known (get_system_command c) ≡ false
      → process_by apply_command t c d ≡ routed false (get_system_command c) t c d
  unfolding process_by
  by_type unknown c d k = refl
  by_type capability c d k = refl
  by_type system c d k = unknown_system c d k

  by_system :
      (t : CommandType) (c : DeviceCommand) (d : Device S)
      → is_system t ≡ true
      → process_by apply_command t c d ≡ process_system apply_command c d
  unfolding process_by
  by_system unknown c d k = ground arith
  by_system capability c d k = ground arith
  by_system system c d k = refl

  as_system :
      (c : DeviceCommand) (d : Device S)
      → process_by apply_command system (record c { type = codes "SYSTEM" }) d
        ≡ process_system apply_command c d
  unfolding process_by process_system get_system_command
  as_system c d = refl

  -- A command whose value names a system command is accepted whatever its type says, and restarts
  -- the device exactly if it is a reboot. Any other goes to the capabilities if its type says so,
  -- and is refused, with nothing changed, if not.
  pub dispatch_command_lem :
      (c : DeviceCommand) (d : Device S)
      → dispatch_command apply_command c d
        ≡ routed (is_known (get_system_command c)) (get_system_command c) (get_command_type c) c d
  unfolding dispatch_command
  dispatch_command_lem c d = elim (Bool-cases (is_known (get_system_command c))) [
    | inl k ↦ elim (Bool-cases (is_system (get_command_type c))) [
      | inl s ↦ rw (k, s) (by_system (get_command_type c) c d s ∙ known_system c d _ refl k)
      | inr n ↦ rw (k, n) (as_system c d ∙ known_system c d _ refl k)
    ]
    | inr u ↦ elim (Bool-cases (is_system (get_command_type c))) [
      | inl s ↦ rw (u, s) (by_type (get_command_type c) c d u)
      | inr n ↦ rw (u, n) (by_type (get_command_type c) c d u)
    ]
  ]

  -- The command was delivered to the first capability of its name, or refused with nothing changed.
  abbrev pub Delivers : DeviceCommand → Device S → Device S × Bool → Type 0
  Delivers c d (e, true) =
      (e.restarts ≡ d.restarts)
      × Reaches (apply_command (capability_command apply_command c)) (c_str c.capability_name)
          d.items (some e.items)
  Delivers c d (e, false) = (e ≡ d) × Misses (c_str c.capability_name) d.items

  delivered :
      (c : DeviceCommand) (d : Device S) (o : Option (List (Item S)))
      → Reaches
          (apply_command (capability_command apply_command c))
          (c_str c.capability_name)
          d.items
          o
      → Delivers c d
          (elim o [ none ↦ (d, false) | some items ↦ (record d { items = items }, true) ])
  delivered c d none r = (refl, r)
  delivered c d (some items) r = (refl, r)

  -- A command for a capability is applied to the first capability of its name that takes commands,
  -- and to no other; if there is none, it is refused and nothing changes. It never restarts the
  -- device.
  pub process_capability-Delivers :
      (c : DeviceCommand) (d : Device S) → Delivers c d (process_capability apply_command c d)
  unfolding process_capability
  process_capability-Delivers c d = delivered c d _ (apply_to-Reaches _ _ d.items)
