-- ===== src/Digital/Steady.antt =====
-- What passes quicker than the tolerance do.
use io_tsmart_sys_core.Base.{
  ℕ, ◌+◌, ◌<◌, ◌≤◌, true, false, ◌≡◌, refl, arith, List, [], ◌∷◌, ◌∙◌, subst, sym,
}
use io_tsmart_sys_core.Capability.{update_state}
use io_tsmart_sys_core.Digital.{
  Values, Sample, Debounced, Latched, same_level, value_of, update_debounced, update_debounced_all,
  update_latched, update_latched_all,
}

-- The times of the passes rise from `lo` and stay below `hi`.
abbrev pub Rising : ℕ → ℕ → List Sample → Type 0
Rising lo hi [] = Unit {0}
Rising lo hi (s ∷ ss) = (lo ≤ s.now) × (s.now < hi) × Rising s.now hi ss

-- One such pass keeps what is published, and the time it notes.
early_pass :
    (v : Values) (s : Sample) (d : Debounced) (t : ℕ)
    → t ≤ d.last_change_ts
    → d.last_change_ts ≤ s.now
    → t + d.tolerance_ms < 4294967296
    → s.now < t + d.tolerance_ms
    → ((update_debounced v s d).capability ≡ d.capability)
      × ((update_debounced v s d).last_state ≡ d.last_state)
      × ((update_debounced v s d).tolerance_ms ≡ d.tolerance_ms)
      × (t ≤ (update_debounced v s d).last_change_ts)
      × ((update_debounced v s d).last_change_ts ≤ s.now)
unfolding update_debounced
early_pass v s d t a b c e = ground arith

-- While every pass comes less than the tolerance after `t`, a time not later than the last agreeing
-- reading, nothing is published and the state stays, whatever the levels; the clock must stay below
-- 2^32 ms.
pub glitches_hidden :
    (v : Values) (ss : List Sample) (lo : ℕ) (d : Debounced) (t : ℕ)
    → t ≤ d.last_change_ts
    → d.last_change_ts ≤ lo
    → t + d.tolerance_ms < 4294967296
    → Rising lo (t + d.tolerance_ms) ss
    → ((update_debounced_all v ss d).capability ≡ d.capability)
      × ((update_debounced_all v ss d).last_state ≡ d.last_state)
unfolding update_debounced_all
glitches_hidden v [] lo d t a b c r = (refl, refl)
glitches_hidden v (s ∷ ss) lo d t a b c r =
    let p = early_pass v s d t a (omega arith) c r.1 in
    let rest =
      glitches_hidden v ss s.now (update_debounced v s d) t p.3 p.4 (omega (arith, p.2))
        (subst (λ k. Rising s.now (t + k) ss) (sym p.2) r.2) in
    (rest.0 ∙ p.0, rest.1 ∙ p.1)

-- A reading that still differs from the state once the tolerance has passed since the last agreeing
-- reading becomes the state and is published, and its time is noted.
pub held_level_publishes :
    (v : Values) (s : Sample) (d : Debounced)
    → same_level s.level d.last_state ≡ false
    → d.last_change_ts + d.tolerance_ms ≤ s.now
    → s.now < 4294967296
    → ((update_debounced v s d).last_state ≡ s.level)
      × ((update_debounced v s d).capability ≡ update_state d.capability (value_of v s.level))
      × ((update_debounced v s d).last_change_ts ≡ s.now)
unfolding update_debounced
held_level_publishes v s d differs held small = ground arith

latch_pass :
    (v : Values) (s : Sample) (l : Latched) (t : ℕ)
    → l.latched ≡ true
    → l.last_published ≡ true
    → t ≤ l.last_latched_ts
    → l.last_latched_ts ≤ s.now
    → t + l.tolerance_ms < 4294967295
    → s.now < t + l.tolerance_ms + 1
    → ((update_latched v s l).latched ≡ true)
      × ((update_latched v s l).last_published ≡ true)
      × ((update_latched v s l).capability ≡ l.capability)
      × ((update_latched v s l).tolerance_ms ≡ l.tolerance_ms)
      × (t ≤ (update_latched v s l).last_latched_ts)
      × ((update_latched v s l).last_latched_ts ≤ s.now)
unfolding update_latched
latch_pass v s l t on published a b c e = ground arith

-- A published latch stays, without another event, while every pass comes no later than the tolerance
-- after `t`, a time not later than the last triggered pass, whatever the levels; the clock must stay
-- below 2^32 ms.
pub latch_holds :
    (v : Values) (ss : List Sample) (lo : ℕ) (l : Latched) (t : ℕ)
    → l.latched ≡ true
    → l.last_published ≡ true
    → t ≤ l.last_latched_ts
    → l.last_latched_ts ≤ lo
    → t + l.tolerance_ms < 4294967295
    → Rising lo (t + l.tolerance_ms + 1) ss
    → ((update_latched_all v ss l).latched ≡ true)
      × ((update_latched_all v ss l).capability ≡ l.capability)
unfolding update_latched_all
latch_holds v [] lo l t on published a b c r = (on, refl)
latch_holds v (s ∷ ss) lo l t on published a b c r =
    let p = latch_pass v s l t on published a (omega arith) c r.1 in
    let rest =
      latch_holds v ss s.now (update_latched v s l) t p.0 p.1 p.4 p.5 (omega (arith, p.3))
        (subst (λ k. Rising s.now (t + k + 1) ss) (sym p.3) r.2) in
    (rest.0, rest.1 ∙ p.2)

-- An untriggered pass later than the tolerance after the last triggered one drops a published latch
-- and publishes that.
pub latch_drops :
    (v : Values) (s : Sample) (l : Latched)
    → l.latched ≡ true
    → l.last_published ≡ true
    → s.level ≡ false
    → l.last_latched_ts + l.tolerance_ms < s.now
    → s.now < 4294967296
    → ((update_latched v s l).latched ≡ false)
      × ((update_latched v s l).last_published ≡ false)
      × ((update_latched v s l).capability ≡ update_state l.capability v.inactive)
unfolding update_latched
latch_drops v s l on published quiet late small = ground arith
