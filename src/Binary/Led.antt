-- ===== src/Binary/Led.antt =====
-- `LEDCapability` of src/Contracts/Capabilities/LEDCapability.h and
-- src/Core/Capabilities/LEDCapability.cpp: a binary capability that can blink.
pub mod Blink
use io_tsmart_sys_core.Base.{
  ℕ, Bool, true, false, not, ◌&&◌, Text, text_eq, leb, ◌==◌, if◌then◌else◌, u32, sub64,
}
use io_tsmart_sys_core.Hardware.{HardwareAdapter, StateProvider, state_on, state_off}
use io_tsmart_sys_core.Binary.{
  Binary, is_on, apply_command as base_command, sync_from_hardware, confirm_stable_state,
}

-- The two times are `unsigned long`, 32 bits on the ESP32; the clock has 64.
pub record Led (A : HardwareAdapter) (P : StateProvider) : Type 0 where
  pub base : Binary A P
  pub blink_interval : ℕ
  pub last_toggle_ts : ℕ
  pub blinking : Bool

module _ (A : HardwareAdapter) (P : StateProvider) where
  -- Whether the blink timer is due; the 32-bit time is subtracted in 64 bits.
  abbrev pub is_due : ℕ → Led A P → Bool
  is_due now l =
      (l.blinking && not (l.blink_interval == 0))
      && leb l.blink_interval (sub64 now l.last_toggle_ts)

  abbrev pub other_value : Led A P → Text
  other_value l = if is_on A P l.base then state_off else state_on

  -- The pass of a due timer: the alternation is transient until the end of the pass.
  unfoldable pub alternate : ℕ → Led A P → Led A P
  alternate now l =
      let marked = record (l.base) { transient_cycle = true } in
      let synced = sync_from_hardware A P (base_command A P (other_value l) marked) in
      record l { base = record synced { transient_cycle = false }; last_toggle_ts = u32 now }

  unfoldable pub handle : ℕ → Led A P → Led A P
  unfolding alternate
  handle now l =
      if is_due now l then alternate now l else record l { base = sync_from_hardware A P l.base }

  -- An explicit command replaces the blinking.
  unfoldable pub apply_command : Text → Led A P → Led A P
  apply_command value l =
      let commanded = base_command A P value l.base in
      if l.blinking
      then record l {
        blinking = false;
        blink_interval = 0;
        base = confirm_stable_state A P (sync_from_hardware A P commanded);
      }
      else record l { base = commanded }

  abbrev pub power : Text → Led A P → Led A P
  power state l = apply_command state l

  abbrev pub execute_command : Text → Led A P → Led A P
  execute_command state l = power state l

  unfoldable pub blink : ℕ → ℕ → Led A P → Led A P
  blink interval now l =
      let stopped = record l { blinking = false; blink_interval = 0 } in
      if interval == 0
      then (if l.blinking
          then record stopped { base = confirm_stable_state A P l.base }
          else stopped)
      else record l { blink_interval = interval; blinking = true; last_toggle_ts = u32 now }
