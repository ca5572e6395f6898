-- ===== src/Upstream/Backoff.antt =====
-- src/upstream.rs: the delay before a reconnect. A delay is a number of milliseconds.
use native.Mathlib.Nat.{pow-le-pow_right, mul-le-mul_left}
use mcpstead.Base.{ℕ, suc, ◌-◌, ◌*◌, ◌^◌, ◌≤◌, ◌≡◌, min, max, saturating_mul, u64_max, arith}
use mcpstead.Config.{ReconnectConfig}

-- `failures.saturating_sub(1).min(20)`
unfoldable pub exponent : ℕ → ℕ
exponent failures = min (failures - 1) 20

-- `backoff_delay`; the shift by at most 20 stays within 64 bits
unfoldable pub backoff_delay : ReconnectConfig → ℕ → ℕ
unfolding exponent
backoff_delay config failures =
    let multiplier = 2 ^ exponent failures in
    max (min (saturating_mul config.backoff_base_ms multiplier) config.backoff_max_ms) 1

product_mono : (base a b : ℕ) → a ≤ b → base * 2 ^ a ≤ base * 2 ^ b
product_mono base a b h = mul-le-mul_left base (pow-le-pow_right (omega arith) h)

-- The delay is at least one millisecond, and at most the configured one or one millisecond.
pub backoff_delay_bounds :
    (c : ReconnectConfig) (failures : ℕ)
    → (1 ≤ backoff_delay c failures) × (backoff_delay c failures ≤ max c.backoff_max_ms 1)
unfolding backoff_delay
backoff_delay_bounds c failures = omega arith

-- More failures never make the delay shorter.
pub backoff_delay_mono :
    (c : ReconnectConfig) (m n : ℕ) → m ≤ n → backoff_delay c m ≤ backoff_delay c n
unfolding backoff_delay
backoff_delay_mono c m n h =
    omega (arith, product_mono c.backoff_base_ms (min (m - 1) 20) (min (n - 1) 20) (omega arith))

-- Up to the bounds the delay doubles with each failure: with `base * 2^k` between 1 and the maximum
-- and k at most 20, failure number k + 1 waits `base * 2^k`.
pub backoff_delay_exact :
    (c : ReconnectConfig) (k : ℕ)
    → k ≤ 20
    → 1 ≤ c.backoff_base_ms * 2 ^ k
    → c.backoff_base_ms * 2 ^ k ≤ c.backoff_max_ms
    → c.backoff_max_ms ≤ u64_max
    → backoff_delay c (suc k) ≡ c.backoff_base_ms * 2 ^ k
unfolding backoff_delay
backoff_delay_exact c k hk lo hi fits =
    let e : min (suc k - 1) 20 ≡ k = omega arith in rw e (omega arith)
