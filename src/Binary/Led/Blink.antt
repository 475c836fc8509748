-- ===== src/Binary/Led/Blink.antt =====
-- Blinking and the storage.
use io_tsmart_sys_core.Base.{
  ℕ, ◌<◌, Bool, true, false, ◌≡◌, ◌≢◌, refl, arith, ◌⊎◌, inl, inr, ◌∙◌, List, [], ◌∷◌, none, Text,
  text_eq-eq, text_eq_refl, if◌then◌else◌,
}
use io_tsmart_sys_core.Capability.{update_state}
use io_tsmart_sys_core.Hardware.{HardwareAdapter, StateProvider, state_on, state_off}
use io_tsmart_sys_core.Binary.{
  is_on, apply_command as base_command, sync_from_hardware, read_confirmed_state, command_hardware,
  request_persist_if_stable,
}
use io_tsmart_sys_core.Binary.Led.{Led, other_value, alternate, handle}

module _ (A : HardwareAdapter) (P : StateProvider) where
  unfoldable pub handle_all : List ℕ → Led A P → Led A P
  handle_all [] l = l
  handle_all (now ∷ times) l = handle_all times (handle A P now l)

  -- The published value is what the adapter reads, with no interpreter between them.
  pub record Agrees (l : Led A P) : Type 0 where
    pub plain : l.base.interpreter ≡ none
    pub same : A.get_state_value l.base.adapter ≡ l.base.capability.value

  -- What a pass of a blinking light keeps.
  record Kept (l m : Led A P) : Type 0 where
    agrees : Agrees m
    storage : m.base.storage ≡ l.base.storage
    stable : m.base.last_stable_is_on ≡ l.base.last_stable_is_on

  module _
      (obeys : (v : Text) (s : A.State)
        → (v ≡ state_on) ⊎ (v ≡ state_off)
        → A.get_state_value (A.apply_value v s).1 ≡ v) where
    other_value_obeyed :
        (l : Led A P)
        → A.get_state_value (A.apply_value (other_value A P l) l.base.adapter).1 ≡ other_value A P l
    other_value_obeyed l = obeys (other_value A P l) l.base.adapter (which (is_on A P l.base))
      where
        which :
            (b : Bool)
            → ((if b then state_off else state_on) ≡ state_on)
              ⊎ ((if b then state_off else state_on) ≡ state_off)
        which true = inr refl
        which false = inl refl

    alternate-Kept : (now : ℕ) (l : Led A P) → Agrees l → Kept l (alternate A P now l)
    unfolding alternate base_command command_hardware sync_from_hardware read_confirmed_state
        request_persist_if_stable update_state
    alternate-Kept now l a =
        ground (arith, other_value_obeyed l, text_eq-eq (other_value A P l) l.base.capability.value)

    sync-Kept :
        (l : Led A P) → Agrees l → Kept l (record l { base = sync_from_hardware A P l.base })
    unfolding sync_from_hardware read_confirmed_state
    sync-Kept l a = ground (arith, text_eq_refl l.base.capability.value)

    handle-Kept : (now : ℕ) (l : Led A P) → Agrees l → Kept l (handle A P now l)
    unfolding handle
    handle-Kept now l a = ground (arith, alternate-Kept now l a, sync-Kept l a)

    -- On an adapter that reads back the on or off that it was given, and where the published value
    -- is what the adapter reads at the start, any number of passes at any times, with or without
    -- alternations of the blink timer, leaves the storage and the last stable value as they were,
    -- and the published value agrees with the adapter after them.
    pub blink_never_saves :
        (times : List ℕ) (l : Led A P)
        → Agrees l
        → Agrees (handle_all times l)
          × ((handle_all times l).base.storage ≡ l.base.storage)
          × ((handle_all times l).base.last_stable_is_on ≡ l.base.last_stable_is_on)
    unfolding handle_all
    blink_never_saves [] l a = (a, refl, refl)
    blink_never_saves (now ∷ times) l a =
        let k = handle-Kept now l a in
        let rest = blink_never_saves times (handle A P now l) k.agrees in
        (rest.0, rest.1 ∙ k.storage, rest.2 ∙ k.stable)

  -- The clock of the platform wraps at 2^32 ms, but the times are subtracted in 64 bits: a blinking
  -- light whose last alternation lies before the wrap alternates at the first pass after it, however
  -- short the time between them and however long the interval.
  pub alternates_at_wrap :
      (now : ℕ) (l : Led A P)
      → l.blinking ≡ true
      → l.blink_interval ≢ 0
      → l.blink_interval < 4294967296
      → l.last_toggle_ts < 4294967296
      → now < l.last_toggle_ts
      → (handle A P now l ≡ alternate A P now l) × ((handle A P now l).last_toggle_ts ≡ now)
  unfolding handle alternate
  alternates_at_wrap now l blinks some_interval interval last wrapped = ground arith
