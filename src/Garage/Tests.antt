-- ===== src/Garage/Tests.antt =====
-- A door with both end stops and a debounce of 50 ms, closed when it starts.
use mathlib.Core.List.{append-nil}
use io_tsmart_sys_core.Base.{
  text_eq, ℕ, zero, suc, ◌-◌, Bool, true, false, ◌&&◌, ◌≡◌, refl, ◌∙◌, List, [], ◌∷◌, ◌++◌, Text,
  codes, arith, ◌==◌, if◌then◌else◌, length,
}
use io_tsmart_sys_core.Base.Int.{pos}
use io_tsmart_sys_core.Capability.{Capability, update_state}
use io_tsmart_sys_core.Garage.{
  Garage, Reading, to_open, unknown, new, setup, handle, handle_sensor_state, handle_all,
}
use io_tsmart_sys_core.Garage.Endpoints.{handle-Follows, Follows}
use io_tsmart_sys_core.Garage.Events.{values, Stutterless, handle_all-Stutterless}
use io_tsmart_sys_core.Garage.Commands.{ArduinoString, lacks, lock_suffix, press_open}

-- Replaces every occurrence from left to right; the first argument counts the bytes to skip.
abbrev starts_with : Text → Text → Bool
starts_with [] s = true
starts_with (p ∷ ps) [] = false
starts_with (p ∷ ps) (x ∷ xs) = x == p && starts_with ps xs

abbrev replace_from : ℕ → Text → Text → Text → Text
replace_from k p r [] = []
replace_from zero p r (x ∷ xs) =
    if starts_with p (x ∷ xs)
    then r ++ replace_from (length p - 1) p r xs
    else x ∷ replace_from zero p r xs
replace_from (suc k) p r (x ∷ xs) = replace_from k p r xs

replace-append :
    (s t : Text)
    → lacks b'_' s ≡ true
    → replace_from 0 lock_suffix [] (s ++ t) ≡ s ++ replace_from 0 lock_suffix [] t
unfolding lacks
replace-append [] t h = refl
replace-append (x ∷ xs) t h = ground (arith, replace-append xs t)

replace_absent : (s : Text) → lacks b'_' s ≡ true → replace_from 0 lock_suffix [] s ≡ s
unfolding lacks
replace_absent [] h = refl
replace_absent (x ∷ xs) h = ground (arith, replace_absent xs)

replace_suffix :
    (s : Text) → lacks b'_' s ≡ true → replace_from 0 lock_suffix [] (s ++ lock_suffix) ≡ s
replace_suffix s h = replace-append s lock_suffix h ∙ append-nil s

abbrev arduino : ArduinoString
arduino = record {
  append = λ s t. s ++ t;
  replace = λ s p r. replace_from 0 p r s;
  append_lem = λ s t. refl;
  replace_absent = replace_absent;
  replace_suffix = replace_suffix;
}

abbrev door : Capability
door = record {
  capability_name = codes "garage";
  type = codes "Garage Door";
  value = unknown;
  has_sink = true;
  changed = false;
  events = [];
}

abbrev reading : ℕ → ℕ → ℕ → Reading
reading now open_level close_level = record {
  now = now;
  open_level = open_level;
  close_level = close_level;
}

started : Garage
unfolding new setup
started = setup (reading 100 1 0) (new door (pos 300) (pos 50) true true)

-- Closed at 160 ms; a command to open; the closed end is left at 200 ms and settles at 250 ms.
abbrev shut : Garage
shut = handle (reading 160 1 0) started

abbrev leaving : List Reading
leaving = reading 200 1 1 ∷ reading 250 1 1 ∷ reading 300 1 1 ∷ []

opens : values (handle_all leaving (press_open shut)) ≡ codes "closed" ∷ codes "opening" ∷ []
unfolding handle_all handle handle_sensor_state text_eq press_open started update_state
opens = refl

handle-Follows_example : Follows to_open (handle (reading 250 1 1) (press_open shut))
unfolding press_open
handle-Follows_example = handle-Follows (reading 250 1 1) (press_open shut)

abbrev bounces : List Reading
bounces = reading 110 0 0 ∷ reading 120 1 0 ∷ reading 145 0 0 ∷ []

handle_all-Stutterless_example :
    (new : List Text) × (values (handle_all leaving (press_open shut))
      ≡ values (press_open shut) ++ new)
    × Stutterless (press_open shut).last_state new
unfolding handle handle_sensor_state text_eq press_open started update_state
handle_all-Stutterless_example = handle_all-Stutterless leaving (press_open shut) refl
