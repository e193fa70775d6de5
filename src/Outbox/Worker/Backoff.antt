-- ===== src/Outbox/Worker/Backoff.antt =====
-- The delay before the next delivery.
use subscription_be.Prelude.{ℕ, zero, suc, ◌+◌, ◌*◌, ◌/◌, ◌≤◌, ◌<◌, Bool, arith, if◌then◌else◌}
use subscription_be.Outbox.Worker.{retry_delay, base_delay}

-- `delayMs` before the jitter: 1 min, 5 min, 30 min, 2 h and 12 h from the first retry on.
abbrev pub nominal_delay : ℕ → Bool → ℕ
nominal_delay n is_rate_limited = if is_rate_limited then base_delay n * 2 else base_delay n

mul_le : (d r : ℕ) → r < 1000000 → d * r ≤ d * 999999
mul_le zero r h = omega arith
mul_le (suc d) r h = omega (arith, mul_le d r h)

jitter-bounds :
    (d random : ℕ)
    → random < 1000000
    → (9 * d < 10 * (d * (9000000 + 2 * random) / 10000000 + 1))
      × (10 * (d * (9000000 + 2 * random) / 10000000) ≤ 11 * d)
jitter-bounds d random h = (omega (arith, mul_le d random h), omega (arith, mul_le d random h))

-- With `Math.random()` below 1 the jitter moves the delay by at most a tenth, up to the rounding to
-- whole milliseconds.
pub retry_delay-bounds :
    (n : ℕ) (is_rate_limited : Bool) (random : ℕ)
    → random < 1000000
    → let d = nominal_delay n is_rate_limited in
      (9 * d < 10 * (retry_delay n is_rate_limited random + 1))
      × (10 * retry_delay n is_rate_limited random ≤ 11 * d)
unfolding retry_delay
retry_delay-bounds n is_rate_limited random h =
    jitter-bounds (nominal_delay n is_rate_limited) random h
