-- ===== src/SettingsGate/Once.antt =====
-- Every accepted callback runs once, as soon as its level is reached.
use io_tsmart_sys_core.Base.{
  ℕ, ◌+◌, ◌≤◌, Bool, true, false, not, ◌&&◌, ◌≡◌, refl, arith, ◌∙◌, inl, inr, List, [], ◌∷◌, ◌++◌,
  Option, none, some, ltb, ◌==◌, if◌then◌else◌, Option-cases,
}
use io_tsmart_sys_core.SettingsGate.{
  Level, rank, GateResult, gate_ok, Sub, Ran, Gate, new, is_ready, collected, freed, set_level,
  register, run_when_ready, signal_error,
}

pub data Op : Type 0 where
  signals : Level → ℕ → Op
  fails : ℕ → Op
  asks : Level → Option ℕ → ℕ → Op

unfoldable pub step : Op → Gate → Gate
step (signals level err) g = set_level level err g
step (fails err) g = signal_error err g
step (asks want cb ctx) g = (run_when_ready want cb ctx g).0

unfoldable pub run : List Op → Gate → Gate
run [] g = g
run (o ∷ os) g = run os (step o g)

-- How often a callback has run, waits, and was accepted.
abbrev pub times_ran : ℕ → List Ran → ℕ
times_ran cb [] = 0
times_ran cb (r ∷ rs) = if r.cb == cb then times_ran cb rs + 1 else times_ran cb rs

abbrev pub times_waiting : ℕ → List Sub → ℕ
times_waiting cb [] = 0
times_waiting cb (s ∷ ss) =
    if s.used && s.cb == cb then times_waiting cb ss + 1 else times_waiting cb ss

abbrev accepted : ℕ → Option ℕ → GateResult → ℕ
accepted cb (some c) gate_ok = if c == cb then 1 else 0
accepted cb _ _ = 0

abbrev accepts : ℕ → Op → Gate → ℕ
accepts cb (asks want c ctx) g = accepted cb c (run_when_ready want c ctx g).1
accepts cb _ g = 0

abbrev pub times_accepted : ℕ → List Op → Gate → ℕ
times_accepted cb [] g = 0
times_accepted cb (o ∷ os) g = accepts cb o g + times_accepted cb os (step o g)

-- Who waits is not ready yet.
abbrev pub all_early : Level → List Sub → Bool
all_early level [] = true
all_early level (s ∷ ss) = not (is_ready level s) && all_early level ss

times_ran-append :
    (cb : ℕ) (rs ss : List Ran) → times_ran cb (rs ++ ss) ≡ times_ran cb rs + times_ran cb ss
times_ran-append cb [] ss = omega arith
times_ran-append cb (r ∷ rs) ss = ground (arith, times_ran-append cb rs ss)

collected-freed :
    (cb : ℕ) (level : Level) (ss : List Sub)
    → times_ran cb (collected level ss) + times_waiting cb (freed level ss) ≡ times_waiting cb ss
unfolding collected freed
collected-freed cb level [] = refl
collected-freed cb level (s ∷ ss) = ground (arith, collected-freed cb level ss)

freed_early : (level : Level) (ss : List Sub) → all_early level (freed level ss) ≡ true
unfolding freed
freed_early level [] = refl
freed_early level (s ∷ ss) = ground (arith, freed_early level ss)

register_waiting :
    (cb : ℕ) (level : Level) (r : Sub) (ss ts : List Sub)
    → register r ss ≡ some ts
    → is_ready level r ≡ false
    → r.used ≡ true
    → all_early level ss ≡ true
    → (times_waiting cb ts ≡ times_waiting cb ss + (if r.cb == cb then 1 else 0))
      × (all_early level ts ≡ true)
unfolding register
register_waiting cb level r [] ts h e u a = cc
register_waiting cb level r (s ∷ ss) ts h e u a = elim (Option-cases (register r ss)) [
  | inl full ↦ ground arith
  | inr (us, found) ↦ ground (arith, register_waiting cb level r ss us found e u)
]

-- What the steps keep, for one callback.
record Keeps (cb n : ℕ) (g h : Gate) : Type 0 where
  balance :
      times_ran cb h.ran + times_waiting cb h.subs
      ≡ times_ran cb g.ran + times_waiting cb g.subs + n
  early : all_early h.level h.subs ≡ true
  rises : rank g.level ≤ rank h.level

set_level-Keeps :
    (cb : ℕ) (level : Level) (err : ℕ) (g : Gate) → Keeps cb 0 g (set_level level err g)
unfolding set_level
set_level-Keeps cb level err g =
    let higher = if ltb (rank g.level) (rank level) then level else g.level in
    ground (
      arith,
      times_ran-append cb g.ran (collected higher g.subs),
      collected-freed cb higher g.subs,
      freed_early higher g.subs,
    )

asks-Keeps :
    (cb : ℕ) (want : Level) (c : Option ℕ) (ctx : ℕ) (g : Gate)
    → all_early g.level g.subs ≡ true
    → Keeps cb (accepted cb c (run_when_ready want c ctx g).1) g (run_when_ready want c ctx g).0
unfolding run_when_ready
asks-Keeps cb want none ctx g a = ground arith
asks-Keeps cb want (some c) ctx g a = elim (Option-cases (register waiter g.subs)) [
  | inl full ↦ ground (arith, times_ran-append cb g.ran (now ∷ []))
  | inr (ts, found) ↦ ground (
    arith,
    times_ran-append cb g.ran (now ∷ []),
    register_waiting cb g.level waiter g.subs ts found,
  )
]
  where
    waiter : Sub
    waiter = record { used = true; want = want; cb = c; ctx = ctx }

    now : Ran
    now = record { level = g.level; cb = c; ctx = ctx }

step-Keeps :
    (cb : ℕ) (o : Op) (g : Gate)
    → all_early g.level g.subs ≡ true
    → Keeps cb (accepts cb o g) g (step o g)
unfolding step
step-Keeps cb (signals level err) g a = set_level-Keeps cb level err g
step-Keeps cb (fails err) g a = ground arith
step-Keeps cb (asks want c ctx) g a = asks-Keeps cb want c ctx g a

run-Keeps :
    (cb : ℕ) (os : List Op) (g : Gate)
    → all_early g.level g.subs ≡ true
    → Keeps cb (times_accepted cb os g) g (run os g)
unfolding run
run-Keeps cb [] g a = ground arith
run-Keeps cb (o ∷ os) g a =
    let k = step-Keeps cb o g a in
    let rest = run-Keeps cb os (step o g) k.early in ground (arith, k, rest)

-- From a new gate, after any sequence of signals, errors and requests, a callback has run or waits in
-- a slot exactly as often as its requests were accepted; none waits whose level has been reached; and
-- further steps do not lower the level.
pub accepted_run_once :
    (cb : ℕ) (os more : List Op)
    → (times_ran cb (run os new).ran + times_waiting cb (run os new).subs
        ≡ times_accepted cb os new)
      × (all_early (run os new).level (run os new).subs ≡ true)
      × (rank (run os new).level ≤ rank (run more (run os new)).level)
accepted_run_once cb os more =
    let k = run-Keeps cb os new refl in
    let later = run-Keeps cb more (run os new) k.early in
    (k.balance ∙ omega arith, k.early, later.rises)
