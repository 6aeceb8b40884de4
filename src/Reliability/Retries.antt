-- ===== src/Reliability/Retries.antt =====
-- `RetryPolicy.delay`: between which bounds it lies.
use native.Mathlib.Nat.{mul-le-mul, mul-le-mul_left}
use ops_pilot_ai.Base.{ℕ, ◌+◌, ◌-◌, ◌*◌, ◌^◌, ◌≤◌, min, true, ◌≡◌, arith}
use ops_pilot_ai.Reliability.{RetryPolicy, is_valid, delay, unit}

factor : RetryPolicy → ℕ → ℕ
factor p s = unit * unit - p.jitter_ratio * unit + 2 * p.jitter_ratio * min unit s

jitter_le : (p : RetryPolicy) → is_valid p ≡ true → p.jitter_ratio ≤ unit
unfolding is_valid
jitter_le p h = ground arith

factor_le :
    (p : RetryPolicy) (s : ℕ)
    → p.jitter_ratio ≤ unit
    → factor p s ≤ unit * unit + p.jitter_ratio * unit
unfolding factor
factor_le p s h =
    let k = mul-le-mul_left {m = min unit s} {n = unit} (2 * p.jitter_ratio) (omega arith) in
    omega arith

-- With a valid policy, the delay after any failure is at most the maximal delay and the jitter on
-- top of it, and at least the exponential delay less the jitter.
pub delay_bounds :
    (p : RetryPolicy) (n s : ℕ)
    → is_valid p ≡ true
    → (delay p n s ≤ p.max_seconds * (unit * unit + p.jitter_ratio * unit))
      × (min p.max_seconds (p.base_seconds * 2 ^ (n - 1)) * (unit * unit - p.jitter_ratio * unit)
          ≤ delay p n s)
unfolding delay factor
delay_bounds p n s h =
    let e = min p.max_seconds (p.base_seconds * 2 ^ (n - 1)) in
    (
      mul-le-mul {n₁ = e} {n₂ = p.max_seconds} (omega arith) (factor_le p s (jitter_le p h)),
      mul-le-mul_left e (omega arith),
    )
