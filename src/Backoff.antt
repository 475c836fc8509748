-- ===== src/Backoff.antt =====
-- `computeBackoffMs` of src/Core/Services/MqttService.cpp and of
-- src/Platform/Espressif/Wifi/WiFiManager.cpp, which are the same code.
pub mod Bounds
mod Tests
use io_tsmart_sys_core.Base.{ℕ, zero, suc, ◌+◌, ◌*◌, ◌/◌, ◌%◌, ltb, leb, ◌==◌, if◌then◌else◌, u32}

-- The fields of `RetryPolicy` and of `WiFiConfig` that it reads: uint32 but `max_fast_retries`,
-- which is uint8.
pub record Policy : Type 0 where
  pub initial_backoff_ms : ℕ
  pub max_backoff_ms : ℕ
  pub jitter_ms : ℕ
  pub max_fast_retries : ℕ

-- The loop over `i < exp`, with the rounds left.
unfoldable pub doubled : ℕ → ℕ → ℕ → ℕ
doubled cap zero base = base
doubled cap (suc n) base =
    let more = doubled cap n (u32 (base * 2)) in if ltb (cap / 2) base then cap else more

abbrev pub exponent : Policy → ℕ → ℕ
exponent p attempt = if leb attempt p.max_fast_retries then attempt else p.max_fast_retries

abbrev pub capped : ℕ → ℕ → ℕ
capped cap base = if ltb cap base then cap else base

-- `random` is what `esp_random` returns.
unfoldable pub jitter : Policy → ℕ → ℕ
jitter p random = if p.jitter_ms == 0 then 0 else random % u32 (p.jitter_ms + 1)

unfoldable pub compute_backoff_ms : Policy → ℕ → ℕ → ℕ
compute_backoff_ms p attempt random = u32 (
    capped p.max_backoff_ms (doubled p.max_backoff_ms (exponent p attempt) p.initial_backoff_ms)
    + jitter p random)
