-- ===== src/Binary/Stable.antt =====
-- What a binary capability persists, over any sequence of commands, passes and hardware changes.
use io_tsmart_sys_core.Base.{
  is_empty, Bool, true, false, ◌≡◌, refl, arith, inl, inr, some, Text, text_eq-eq, text_eq_refl,
  if◌then◌else◌, Option-cases,
}
use io_tsmart_sys_core.Capability.{update_state}
use io_tsmart_sys_core.Hardware.{HardwareAdapter, StateProvider}
use io_tsmart_sys_core.Binary.{
  Binary, is_on, is_semantic, read_confirmed_state, command_hardware, publish_value,
  seed_stable_baseline, adopt_hardware, stored_state, restore_to, restore_from_storage, setup,
}

-- Where the published value is on or off, it is the last stable value.
abbrev pub Tracks : {A : HardwareAdapter} {P : StateProvider} → Binary A P → Type 0
Tracks {A} {P} b =
    is_semantic A P b b.capability.value ≡ true
    → (b.has_stable_request ≡ true) × (b.last_stable_is_on ≡ is_on A P b)

module _ (A : HardwareAdapter) (P : StateProvider) where
  abbrev pub restored_value : Bool → Binary A P → Text
  restored_value r b = if r then b.on_value else b.off_value

  -- The answer to the command that restores a state, and the hardware after it.
  abbrev pub restoring : Bool → Binary A P → Bool × A.State
  restoring r b =
      command_hardware A P (restored_value r b) (record b { adapter = A.setup b.adapter })

  -- What a boot leaves, over the state `b` that it finds: the storage is not written, what is
  -- published is the state that the hardware confirms, and it is noted as stable if it is on or off.
  pub record Booted (b t : Binary A P) : Type 0 where
    pub storage : t.storage ≡ b.storage
    pub value : t.capability.value ≡ read_confirmed_state A P t
    pub tracks : Tracks t
    pub transient : t.transient_cycle ≡ b.transient_cycle
    pub named : t.capability.capability_name ≡ b.capability.capability_name
    pub typed : t.capability.type ≡ b.capability.type

  adopted-Booted :
      (value : Text) (b t : Binary A P)
      → t.storage ≡ b.storage
      → t.transient_cycle ≡ b.transient_cycle
      → t.capability ≡ b.capability
      → read_confirmed_state A P t ≡ value
      → Booted b (seed_stable_baseline A P value (publish_value A P value t))
  unfolding seed_stable_baseline update_state read_confirmed_state
  adopted-Booted value b t same steady kept confirmed = ground arith

  restore_to-Booted : (r : Bool) (b : Binary A P) → Booted b (restore_to A P r b)
  unfolding restore_to adopt_hardware
  restore_to-Booted r b = ground (
    arith,
    text_eq-eq (read_confirmed_state A P told) target,
    adopted-Booted target b told refl refl refl,
    adopted-Booted (read_confirmed_state A P told) b told refl refl refl refl,
  )
    where
      target : Text
      target = if r then b.on_value else b.off_value

      told : Binary A P
      told = record b { adapter = (command_hardware A P target b).1 }

  restore_from_storage-Booted : (b : Binary A P) → Booted b (restore_from_storage A P b)
  unfolding restore_from_storage adopt_hardware
  restore_from_storage-Booted b = elim (Option-cases (stored_state A P b b.storage)) [
    | inl absent ↦
        ground (arith, adopted-Booted (read_confirmed_state A P b) b b refl refl refl refl)
    | inr (r, stored) ↦ ground (arith, restore_to-Booted r b)
  ]

  -- Whatever is stored and however the adapter answers, a boot does not write the storage, and
  -- leaves the published value equal to the state that the hardware confirms.
  pub setup-Booted : (b : Binary A P) → Booted b (setup A P b)
  unfolding setup
  setup-Booted b =
      let t = restore_from_storage-Booted (record b { adapter = A.setup b.adapter }) in
      record {
        storage = t.storage;
        value = t.value;
        tracks = t.tracks;
        transient = t.transient;
        named = t.named;
        typed = t.typed;
      }

  -- A stored state that the adapter accepts and reads back is the published value after a setup, and
  -- the command that restores it is the only one that the hardware gets.
  pub setup_restores :
      (b : Binary A P) (s : P.State) (r : Bool)
      → b.storage ≡ some s
      → is_empty b.capability.capability_name ≡ false
      → P.try_get b.capability.capability_name b.capability.type s ≡ some r
      → (restoring r b).0 ≡ true
      → read_confirmed_state A P (record b { adapter = (restoring r b).1 }) ≡ restored_value r b
      → ((setup A P b).capability.value ≡ restored_value r b)
        × ((setup A P b).adapter ≡ (restoring r b).1)
        × ((setup A P b).storage ≡ b.storage)
  unfolding setup restore_from_storage stored_state restore_to seed_stable_baseline update_state
  setup_restores b s r present named stored accepted confirmed =
      ground (arith, text_eq_refl (restored_value r b))
