-- ===== src/SettingsGate.antt =====
-- `SettingsGateImpl` of src/Core/Settings/SettingsGateImpl.h and .cpp: a readiness level that only
-- rises, and callbacks that wait for a level. Functions and contexts are numbers, and a callback that
-- runs is noted in `ran`.
pub mod Once
mod Tests
use io_tsmart_sys_core.Base.{
  ℕ, Bool, true, false, not, ◌&&◌, List, [], ◌∷◌, ◌++◌, Option, none, some, replicate, leb, ltb,
  if◌then◌else◌,
}

pub data Level : Type 0 where
  no_level available synced syncing : Level

abbrev pub rank : Level → ℕ
rank no_level = 0
rank available = 1
rank synced = 2
rank syncing = 3

abbrev pub is_at_least : Level → Level → Bool
is_at_least have want = leb (rank want) (rank have)

pub data GateResult : Type 0 where
  gate_ok invalid_arg no_mem : GateResult

pub record Sub : Type 0 where
  pub used : Bool
  pub want : Level
  pub cb : ℕ
  pub ctx : ℕ

pub record Ran : Type 0 where
  pub level : Level
  pub cb : ℕ
  pub ctx : ℕ

-- `last_err` is the code of a `StateResult`, 0 for `Ok`.
pub record Gate : Type 0 where
  pub level : Level
  pub last_err : ℕ
  pub subs : List Sub
  pub ran : List Ran

abbrev pub max_subs : ℕ
max_subs = 8

abbrev pub new : Gate
new = record {
  level = no_level;
  last_err = 0;
  subs = replicate max_subs (record { used = false; want = no_level; cb = 0; ctx = 0 });
  ran = [];
}

abbrev pub is_ready : Level → Sub → Bool
is_ready level s = s.used && is_at_least level s.want

-- The loop that collects the callbacks, and frees their slots.
unfoldable pub collected : Level → List Sub → List Ran
collected level [] = []
collected level (s ∷ ss) =
    let rest = collected level ss in
    if is_ready level s then record { level = level; cb = s.cb; ctx = s.ctx } ∷ rest else rest

unfoldable pub freed : Level → List Sub → List Sub
freed level [] = []
freed level (s ∷ ss) = (if is_ready level s then record s { used = false } else s) ∷ freed level ss

unfoldable pub set_level : Level → ℕ → Gate → Gate
set_level level err g =
    let higher = if ltb (rank g.level) (rank level) then level else g.level in
    record g {
      level = higher;
      last_err = err;
      subs = freed higher g.subs;
      ran = g.ran ++ collected higher g.subs;
    }

abbrev pub signal_available : Gate → Gate
signal_available g = set_level available 0 g

abbrev pub signal_synced : Gate → Gate
signal_synced g = set_level synced 0 g

abbrev pub signal_syncing : Gate → Gate
signal_syncing g = set_level syncing 0 g

-- The level is a latch: an error does not lower it.
abbrev pub signal_error : ℕ → Gate → Gate
signal_error err g = record g { last_err = err }

-- Into the first free slot; `none` where there is none.
unfoldable pub register : Sub → List Sub → Option (List Sub)
register r [] = none
register r (s ∷ ss) =
    let rest = register r ss in
    if s.used then elim rest [ none ↦ none | some ts ↦ some (s ∷ ts) ] else some (r ∷ ss)

-- A null callback is `none`.
unfoldable pub run_when_ready : Level → Option ℕ → ℕ → Gate → Gate × GateResult
run_when_ready want none ctx g = (g, invalid_arg)
run_when_ready want (some cb) ctx g =
    if is_at_least g.level want
    then (record g { ran = g.ran ++ record { level = g.level; cb = cb; ctx = ctx } ∷ [] }, gate_ok)
    else elim (register (record { used = true; want = want; cb = cb; ctx = ctx }) g.subs) [
      | none ↦ (g, no_mem)
      | some subs ↦ (record g { subs = subs }, gate_ok)
    ]
