-- ===== src/Wrapper/Strategies/Durations.antt =====
-- pkg/wrapper/actions.go: the timeout in nanoseconds.
use helm_c_sdk.Base.{ℕ, ◌*◌, ◌≤◌, ◌<◌, ◌≡◌, arith}
use helm_c_sdk.Base.Int.{ℤ, pos, IsNeg}
use helm_c_sdk.Wrapper.Strategies.{apply_timeout, seconds_duration}

-- A timeout of up to 9223372036 seconds reaches the SDK unchanged, in nanoseconds.
pub timeout_exact :
    (n : ℕ) (current : ℤ)
    → 0 < n
    → n ≤ 9223372036
    → apply_timeout (pos n) current ≡ pos (n * 1000000000)
unfolding apply_timeout seconds_duration
timeout_exact n current p h = ground arith

-- The product of seconds and nanoseconds is not checked: every timeout from 9223372037 to
-- 18446744073 seconds becomes a negative duration.
pub timeout_overflows :
    (n : ℕ) (current : ℤ) → 9223372037 ≤ n → n ≤ 18446744073 → IsNeg (apply_timeout (pos n) current)
unfolding apply_timeout seconds_duration
timeout_overflows n current p h = ground arith
