-- ===== src/Backoff/Tests.antt =====
-- The backoff at the default policy of `MqttService`.
use io_tsmart_sys_core.Base.{◌+◌, ◌*◌, ◌^◌, ◌≤◌, ◌≡◌, min, arith, refl}
use io_tsmart_sys_core.Backoff.{Policy, compute_backoff_ms, jitter, doubled}
use io_tsmart_sys_core.Backoff.Bounds.{compute_backoff_ms_lem}

abbrev default : Policy
default = record {
  initial_backoff_ms = 500;
  max_backoff_ms = 30000;
  jitter_ms = 250;
  max_fast_retries = 5;
}

third_attempt : compute_backoff_ms default 3 300 ≡ 4049
unfolding compute_backoff_ms jitter doubled
third_attempt = refl

compute_backoff_ms_example :
    (compute_backoff_ms default 3 300 ≡ min (500 * 2 ^ min 3 5) 30000 + jitter default 300)
    × (jitter default 300 ≤ 250)
compute_backoff_ms_example = compute_backoff_ms_lem default 3 300 (omega arith) (omega arith)
