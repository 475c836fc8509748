-- ===== src/Binary/Wants.antt =====
-- What the storage is asked to keep, over any sequence of commands, passes and hardware changes.
use io_tsmart_sys_core.Base.{
  is_empty, Bool, true, false, not, ◌||◌, ◌≡◌, arith, ◌⊎◌, inl, inr, List, ◌++◌, [], ◌∷◌, Option,
  none, some, Text, text_eq, text_eq-eq, if◌then◌else◌, ◌∙◌, Option-cases,
}
use io_tsmart_sys_core.Capability.{update_state}
use io_tsmart_sys_core.Hardware.{HardwareAdapter, StateProvider}
use io_tsmart_sys_core.Binary.{
  Binary, read_confirmed_state, apply_command, publish_value, request_persist_if_stable, setup,
  handle,
}
use io_tsmart_sys_core.Binary.Stable.{Tracks, setup-Booted}

-- What happens to a capability without a transient cycle after its setup.
pub data Action (A : HardwareAdapter) : Type 0 where
  commands : Text → Action A
  handles : Action A
  hardware_moves : A.State → Action A

module _ (A : HardwareAdapter) (P : StateProvider) where
  unfoldable pub act : Action A → Binary A P → Binary A P
  act (commands value) b = apply_command A P value b
  act handles b = handle A P b
  act (hardware_moves state) b = record b { adapter = state }

  unfoldable pub run : List (Action A) → Binary A P → Binary A P
  run [] b = b
  run (a ∷ as_) b = run as_ (act a b)

  -- A capability with the name `name` and the type `type`, and a storage that, while it is ready,
  -- takes a request for that identity and stays ready.
  module _ (name type : Text) (named : is_empty name ≡ false) (wanted : P.State → Option Bool)
      (ready : P.State → Bool)
      (kept : (v : Bool) (s : P.State)
        → ready s ≡ true
        → (wanted (P.request_save name type v s) ≡ some v)
          × (ready (P.request_save name type v s) ≡ true)) where
    abbrev wanted_of : Binary A P → Option Bool
    wanted_of b = elim b.storage [ none ↦ none | some s ↦ wanted s ]

    abbrev ready_of : Binary A P → Bool
    ready_of b = elim b.storage [ none ↦ true | some s ↦ ready s ]

    -- Nothing has been asked of the storage `s`, or it wants the last stable value, which is the
    -- published one where that is on or off.
    pub record Wants (s : Option P.State) (b : Binary A P) : Type 0 where
      pub steady : b.transient_cycle ≡ false
      pub name_kept : b.capability.capability_name ≡ name
      pub type_kept : b.capability.type ≡ type
      pub tracks : Tracks b
      pub usable : ready_of b ≡ true
      pub storage : (b.storage ≡ s) ⊎ (wanted_of b ≡ some b.last_stable_is_on)

    publish_persist-Wants :
        (value : Text) (s : Option P.State) (b : Binary A P)
        → Wants s b
        → Wants s (request_persist_if_stable A P value (publish_value A P value b))
    unfolding request_persist_if_stable update_state
    publish_persist-Wants value s b w = elim (Option-cases b.storage) [
      | inl absent ↦ ground arith
      | inr (p, present) ↦
          ground (arith, kept (text_eq value b.on_value) p, w.name_kept, w.type_kept, named)
    ]

    booted-Wants :
        (b : Binary A P)
        → b.transient_cycle ≡ false
        → b.capability.capability_name ≡ name
        → b.capability.type ≡ type
        → ready_of b ≡ true
        → Wants b.storage (setup A P b)
    booted-Wants b steady n t usable =
        let booted = setup-Booted A P b in
        record {
          steady = booted.transient ∙ steady;
          name_kept = booted.named ∙ n;
          type_kept = booted.typed ∙ t;
          tracks = booted.tracks;
          usable = rw booted.storage usable;
          storage = inl booted.storage;
        }

    act-Wants : (a : Action A) (s : Option P.State) (b : Binary A P) → Wants s b → Wants s (act a b)
    unfolding act handle apply_command
    act-Wants (commands value) s b w = ground arith
    act-Wants handles s b w =
        ground (arith, publish_persist-Wants (read_confirmed_state A P b) s b w)
    act-Wants (hardware_moves state) s b w = ground arith

    run-Wants :
        (as_ : List (Action A)) (s : Option P.State) (b : Binary A P)
        → Wants s b
        → Wants s (run as_ b)
    unfolding run
    run-Wants [] s b w = w
    run-Wants (a ∷ as_) s b w = run-Wants as_ s (act a b) (act-Wants a s b w)

    -- After a setup and any sequence of commands, passes and changes of the hardware.
    pub run-setup-Wants :
        (as_ : List (Action A)) (b : Binary A P)
        → b.transient_cycle ≡ false
        → b.capability.capability_name ≡ name
        → b.capability.type ≡ type
        → ready_of b ≡ true
        → Wants b.storage (run as_ (setup A P b))
    run-setup-Wants as_ b steady n t usable =
        run-Wants as_ b.storage (setup A P b) (booted-Wants b steady n t usable)

-- A pass leaves the published value equal to the confirmed state of the hardware, does not touch the
-- hardware, and sends the new value to the event sink exactly if it differs from the published one
-- and there is a sink.
pub handle_publishes :
    {A : HardwareAdapter} {P : StateProvider} (b : Binary A P)
    → ((handle A P b).capability.value ≡ read_confirmed_state A P b)
      × ((handle A P b).adapter ≡ b.adapter)
      × ((handle A P b).capability.events ≡ (
          if text_eq (read_confirmed_state A P b) b.capability.value || not b.capability.has_sink
          then b.capability.events
          else b.capability.events
            ++ record {
              capability_name = b.capability.capability_name;
              value = read_confirmed_state A P b;
              type = b.capability.type;
            }
              ∷ []))
unfolding handle request_persist_if_stable update_state
handle_publishes {A} {P} b =
    ground (arith, text_eq-eq (read_confirmed_state A P b) b.capability.value)
