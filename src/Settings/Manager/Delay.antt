-- ===== src/Settings/Manager/Delay.antt =====
-- `scheduleApiRetryBackoff` of src/Core/Settings/SettingsManager.cpp.
use Prim.Native.Nat.{min}
use io_tsmart_sys_core.Base.{ℕ, zero, suc, ◌+◌, ◌-◌, ◌*◌, ◌^◌, ◌≤◌, ◌<◌, ◌≡◌, arith}
use io_tsmart_sys_core.Settings.Manager.{retry_delay}

-- The delay doubles with each failure, up to a minute.
abbrev pub spec_delay : ℕ → ℕ
spec_delay failures = min (5000 * 2 ^ (failures - 1)) 60000

-- The two agree for so many counts of failures from a first one on.
Agree : ℕ → ℕ → Type 0
Agree zero first = Unit {0}
Agree (suc rounds) first = (retry_delay first ≡ spec_delay first) × Agree rounds (suc first)

Agree-at :
    (rounds first offset : ℕ)
    → Agree rounds first
    → offset < rounds
    → retry_delay (offset + first) ≡ spec_delay (offset + first)
unfolding Agree
Agree-at zero first offset h l = absurd (omega arith)
Agree-at (suc rounds) first zero h l = let moved : 0 + first ≡ first = omega arith in rw moved h.0
Agree-at (suc rounds) first (suc offset) h l =
    let later = Agree-at rounds (suc first) offset h.1 (omega arith) in
    let moved : offset + suc first ≡ suc offset + first = omega arith in rw moved at later

sixteen : Agree 16 0
unfolding Agree retry_delay
sixteen = omega arith

pub retry_delay_lem : (n : ℕ) → n ≤ 15 → retry_delay n ≡ spec_delay n
retry_delay_lem n h =
    let here : n + 0 ≡ n = omega arith in rw here at (Agree-at 16 0 n sixteen (omega arith))
