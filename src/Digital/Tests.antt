-- ===== src/Digital/Tests.antt =====
-- A button and a presence sensor with a tolerance of 50 ms.
use io_tsmart_sys_core.Base.{ℕ, Bool, true, false, arith, List, [], ◌∷◌, codes}
use io_tsmart_sys_core.Capability.{Capability}
use io_tsmart_sys_core.Digital.{Values, Sample, Debounced, Latched}
use io_tsmart_sys_core.Digital.Steady.{Rising}

abbrev values : Values
values = record { active = codes "pressed"; inactive = codes "no_pressed" }

abbrev capability : Capability
capability = record {
  capability_name = codes "button";
  type = codes "Push Button";
  value = codes "no_pressed";
  has_sink = true;
  changed = false;
  events = [];
}

abbrev button : Debounced
button = record {
  capability = capability;
  tolerance_ms = 50;
  last_state = false;
  last_change_ts = 1000;
}

abbrev presence : Latched
presence = record {
  capability = capability;
  tolerance_ms = 50;
  latched = true;
  last_published = true;
  last_latched_ts = 1000;
}

abbrev at : ℕ → Bool → Sample
at now level = record { now = now; level = level }

abbrev bounces : List Sample
bounces = at 1010 true ∷ at 1020 false ∷ at 1040 true ∷ []

bounces_rise : Rising 1000 1050 bounces
bounces_rise =
    (omega arith, omega arith, (omega arith, omega arith, (omega arith, omega arith, tt)))

quiet_rise : Rising 1000 1051 bounces
quiet_rise = (omega arith, omega arith, (omega arith, omega arith, (omega arith, omega arith, tt)))
