-- ===== src/Backoff/Bounds.antt =====
-- The backoff is the capped power of two, plus a jitter.
use native.Mathlib.Nat.{pow-suc, one-le-pow, mul-le-mul_left}
use io_tsmart_sys_core.Base.{
  ℕ, zero, suc, ◌+◌, ◌*◌, ◌/◌, ◌^◌, ◌≤◌, ◌<◌, min, ◌≡◌, inl, inr, ltb, arith, u32, Bool-cases, ◌∙◌,
}
use io_tsmart_sys_core.Backoff.{Policy, doubled, exponent, capped, jitter, compute_backoff_ms}

-- The loop with its cap is the power of two with the cap, and no doubling wraps.
capped-doubled :
    (limit n base : ℕ)
    → limit < 4294967296
    → base < 4294967296
    → capped limit (doubled limit n base) ≡ min (base * 2 ^ n) limit
unfolding doubled
capped-doubled limit zero base c b = ground arith
capped-doubled limit (suc n) base c b = elim (Bool-cases (ltb (limit / 2) base)) [
  | inl over ↦
      let big : base * 1 ≤ base * 2 ^ n = mul-le-mul_left base (one-le-pow n 2 (omega arith)) in
      rw over (rw (pow-suc 2 n) (ground (arith, big)))
  | inr under ↦
      let fits : u32 (base * 2) ≡ base * 2 = ground arith in
      let ih = capped-doubled limit n (base * 2) c (ground arith) in
      rw under (rw fits (rw (pow-suc 2 n) (ih ∙ omega arith)))
]

exponent-min : (p : Policy) (attempt : ℕ) → exponent p attempt ≡ min attempt p.max_fast_retries
exponent-min p attempt = ground arith

jitter-le : (p : Policy) (random : ℕ) → p.jitter_ms < 4294967295 → jitter p random ≤ p.jitter_ms
unfolding jitter
jitter-le p random h =
    let fits : u32 (p.jitter_ms + 1) ≡ p.jitter_ms + 1 = omega arith in ground (arith, fits)

-- Where the maximum and the jitter are together below 2^32 - 1 and the initial backoff is below 2^32,
-- nothing wraps: the backoff is `initial * 2^attempt`, with the attempt held at the number of fast
-- retries and the product at the maximum, plus a jitter of at most the policy's.
pub compute_backoff_ms_lem :
    (p : Policy) (attempt random : ℕ)
    → p.max_backoff_ms + p.jitter_ms < 4294967295
    → p.initial_backoff_ms < 4294967296
    → (compute_backoff_ms p attempt random
        ≡ min (p.initial_backoff_ms * 2 ^ min attempt p.max_fast_retries) p.max_backoff_ms
          + jitter p random)
      × (jitter p random ≤ p.jitter_ms)
unfolding compute_backoff_ms
compute_backoff_ms_lem p attempt random h i =
    let base =
      capped-doubled p.max_backoff_ms (exponent p attempt) p.initial_backoff_ms (omega arith) i in
    let small = jitter-le p random (omega arith) in
    (rw (base, exponent-min p attempt) (omega (arith, small)), small)
