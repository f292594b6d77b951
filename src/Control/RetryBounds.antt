-- ===== src/Control/RetryBounds.antt =====
-- The delays of the retry policy.
use roo_wifi.Base.{ℕ, ◌+◌, ◌*◌, ◌^◌, ◌≤◌, ◌<◌, min, arith}
use native.Mathlib.Nat.{mul-le-mul_left, mod-lt}
use roo_wifi.Types.{ConnectionFailure}
use roo_wifi.Control.State.{RetryOptions}
use roo_wifi.Control.Retry.{base_delay, delay_spread, retry_delay}

at_most_fifty : (j : ℕ) → min 50 j ≤ 50
at_most_fifty j = omega arith

delay_spread_half : (o : RetryOptions) (base : ℕ) → 2 * delay_spread o base ≤ base
unfolding delay_spread
delay_spread_half o base = omega (arith, mul-le-mul_left base (at_most_fifty o.jitter_percent))

-- Whatever the jitter, the delay of a retry is within the spread around the base delay, where it
-- fits a uint32_t, and is at least one millisecond. The spread is at most half of the base.
pub retry_delay_bounds :
    (o : RetryOptions) (f : ConnectionFailure) (level jitter : ℕ)
    → (1 ≤ retry_delay o f level jitter)
      × (retry_delay o f level jitter < 2 ^ 32)
      × (2 * delay_spread o (base_delay o f level) ≤ base_delay o f level)
      × (base_delay o f level + delay_spread o (base_delay o f level) < 2 ^ 32
          → (base_delay o f level
              ≤ retry_delay o f level jitter + delay_spread o (base_delay o f level))
            × (retry_delay o f level jitter
                ≤ base_delay o f level + delay_spread o (base_delay o f level)))
unfolding retry_delay base_delay
retry_delay_bounds o f level jitter =
    let base = base_delay o f level in
    let spread = delay_spread o base in
    let half = delay_spread_half o base in
    let drawn = mod-lt jitter {m = 2 * spread + 1} (omega arith) in
    (
      omega arith,
      omega arith,
      half,
      λ fits. (omega (arith, half, drawn), omega (arith, half, drawn)),
    )
