-- ===== src/App/FactoryReset/Hold.antt =====
-- How long the button of src/App/Managers/FactoryResetButtonController.cpp must be held.
use io_tsmart_sys_core.Base.{
  ℕ, ◌+◌, ◌<◌, ◌≤◌, not, true, false, ◌≡◌, refl, ◌∙◌, ◌⊎◌, inl, inr, List, [], ◌∷◌, some, arith,
  Bool-cases,
}
use io_tsmart_sys_core.App.FactoryReset.{
  InputAdapter, Pass, note_input, digital_active, is_last, is_held, Controller, watch, handle,
}

-- The three reads of the pin agree.
abbrev pub IsSteady : Pass → Type 0
IsSteady p = (p.noted ≡ p.tested) × (p.level ≡ p.tested)

-- The passes are steady, their clock rises from `lo`, and the last is not later than `hi`.
abbrev pub Rising : ℕ → ℕ → List Pass → Type 0
Rising lo hi [] = Unit {0}
Rising lo hi (p ∷ ps) =
    IsSteady p × (lo ≤ p.noted_at) × (p.noted_at ≤ p.now) × (p.now ≤ hi) × Rising p.now hi ps

-- The button is noted as released, or its last change is not before `t`.
abbrev pub Fresh : ℕ → InputAdapter → Type 0
Fresh t a = (a.last_state ≡ some (not a.high_is_on)) ⊎ (t ≤ a.last_state_read_millis)

-- The button after a pass.
record IsQuiet (t : ℕ) (p : Pass) (a : InputAdapter) : Type 0 where
  fresh : Fresh t a
  past : a.last_state_read_millis ≤ p.now
  quiet : (digital_active p a ≡ false) ⊎ (t ≤ a.last_state_read_millis)

still :
    (t : ℕ) (p : Pass) (a : InputAdapter)
    → IsSteady p
    → is_last p.tested a.last_state ≡ true
    → Fresh t a
    → (digital_active p a ≡ false) ⊎ (t ≤ a.last_state_read_millis)
still t p a s same (inl released) = inl (let h = rw released at same in let k = s.1 in ground arith)
still t p a s same (inr late) = inr late

note_input-IsQuiet :
    (t : ℕ) (p : Pass) (a : InputAdapter)
    → IsSteady p
    → Fresh t a
    → a.last_state_read_millis ≤ p.noted_at
    → t ≤ p.noted_at
    → p.noted_at ≤ p.now
    → IsQuiet t p (note_input p a)
unfolding note_input
note_input-IsQuiet t p a s f l k n = elim (Bool-cases (is_last p.tested a.last_state)) [
  | inl same ↦
      rw same (record { fresh = f; past = omega (arith, l, n); quiet = still t p a s same f })
  | inr changed ↦ rw changed (record { fresh = inr k; past = n; quiet = inr k })
]

-- A pass of a button that is quiet neither clears nor restarts.
record IsKept (t : ℕ) (p : Pass) (c d : Controller) : Type 0 where
  adapter : InputAdapter
  there : d.button ≡ some adapter
  fresh : Fresh t adapter
  past : adapter.last_state_read_millis ≤ p.now
  manager : d.manager ≡ c.manager
  restarts : d.restarts ≡ c.restarts

IsKept-with :
    (t : ℕ) (p : Pass) (a : InputAdapter) (c d : Controller)
    → IsQuiet t p a
    → d.button ≡ some a
    → d.manager ≡ c.manager
    → d.restarts ≡ c.restarts
    → IsKept t p c d
IsKept-with t p a c d q there manager restarts = record {
  adapter = a;
  there = there;
  fresh = q.fresh;
  past = q.past;
  manager = manager;
  restarts = restarts;
}

not_held :
    (t : ℕ) (p : Pass) (a : InputAdapter)
    → t ≤ a.last_state_read_millis
    → a.last_state_read_millis ≤ p.now
    → p.now ≤ t + 15000
    → p.now < 4294967296
    → is_held p a ≡ false
not_held t p a f past soon small = ground arith

watch-IsKept :
    (t : ℕ) (p : Pass) (a : InputAdapter) (c : Controller)
    → IsQuiet t p a
    → p.now ≤ t + 15000
    → p.now < 4294967296
    → IsKept t p c (watch p a c)
unfolding watch
watch-IsKept t p a c q soon small = elim q.quiet [
  | inl released ↦ rw released (IsKept-with t p a c _ q refl refl refl)
  | inr late ↦
      let short = not_held t p a late q.past soon small in
      rw short (IsKept-with t p a c _ q (ground arith) (ground arith) (ground arith))
]

unfoldable pub run : List Pass → Controller → Controller
run [] c = c
run (p ∷ ps) c = run ps (handle p c)

pub handle-watch :
    (p : Pass) (a : InputAdapter) (c : Controller)
    → c.button ≡ some a
    → handle p c ≡ watch p (note_input p a) c
unfolding handle
handle-watch p a c there = simp (there, handle) refl

handle-IsKept :
    (t lo hi : ℕ) (p : Pass) (ps : List Pass) (a : InputAdapter) (c : Controller)
    → c.button ≡ some a
    → Fresh t a
    → a.last_state_read_millis ≤ lo
    → t ≤ lo
    → hi ≤ t + 15000
    → hi < 4294967296
    → Rising lo hi (p ∷ ps)
    → IsKept t p c (handle p c)
handle-IsKept t lo hi p ps a c there f past from soon small r = rw (handle-watch p a c there) (
    watch-IsKept t p (note_input p a) c
      (note_input-IsQuiet t p a r.0 f (omega (arith, r.1, past)) (omega (arith, r.1, from)) r.2)
      (omega (arith, r.3, soon)) (omega (arith, r.3, small)))

-- From a time `t` at which the button is noted as released, or at which its level changed last or
-- later, no pass until 15 seconds after it erases the settings or restarts the device, whatever the
-- levels; the three reads of the pin in one pass must agree, and the clock must not pass its wrap.
pub short_hold_keeps :
    (ps : List Pass) (t lo hi : ℕ) (a : InputAdapter) (c : Controller)
    → c.button ≡ some a
    → Fresh t a
    → a.last_state_read_millis ≤ lo
    → t ≤ lo
    → hi ≤ t + 15000
    → hi < 4294967296
    → Rising lo hi ps
    → ((run ps c).manager ≡ c.manager) × ((run ps c).restarts ≡ c.restarts)
unfolding run
short_hold_keeps [] t lo hi a c there f past from soon small r = (refl, refl)
short_hold_keeps (p ∷ ps) t lo hi a c there f past from soon small r =
    let k = handle-IsKept t lo hi p ps a c there f past from soon small r in
    let rest =
      short_hold_keeps ps t p.now hi k.adapter (handle p c) k.there k.fresh k.past
        (omega (arith, r.1, r.2, from)) soon small r.4 in
    (rest.0 ∙ k.manager, rest.1 ∙ k.restarts)
