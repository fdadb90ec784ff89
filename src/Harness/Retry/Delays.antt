-- ===== src/Harness/Retry/Delays.antt =====
-- How long each strategy sleeps.
use enterprise_ai_sales_orch.Prelude.{
  ℕ, zero, suc, ◌+◌, ◌*◌, ◌-◌, ◌^◌, ◌≤◌, ◌≡◌, List, arith, refl, length, All, ap, none, min,
}
use enterprise_ai_sales_orch.Prelude.Int.{+ℤ_parts, -ℤ_parts, min_ℤ, ◌+ℤ◌, ℤ, pos, ◌-ℤ◌, ◌≤ℤ◌}
use enterprise_ai_sales_orch.Harness.Retry.{
  Reply, attempts, ExponentialBackoffRetry, JitteredBackoffRetry, Uniform, exponential_delay,
  jitter_range, jittered_delay, exponential_retry,
}
use enterprise_ai_sales_orch.Harness.Retry.Attempts.{delays, attempts_total}

length-delays : (delay : ℕ → ℤ) (attempt n : ℕ) → length (delays delay attempt n) ≡ n
length-delays delay attempt zero = refl
length-delays delay attempt (suc n) = ap suc (length-delays delay (attempt + 1) n)

All-delays :
    (P : ℤ → Type 0) (delay : ℕ → ℤ) (attempt n : ℕ)
    → ((k : ℕ) → P (delay k))
    → All P (delays delay attempt n)
All-delays P delay attempt zero h = tt
All-delays P delay attempt (suc n) h = (h attempt, All-delays P delay (attempt + 1) n h)

-- As many sleeps as retries at most, each within bounds.
pub record SleepsWithin (P : ℤ → Type 0) (most : ℕ) (sleeps : List ℤ) : Type 0 where
  pub count : length sleeps ≤ most
  pub each : All P sleeps

module _ {A E W : Type 0} where
  attempts-SleepsWithin :
      (P : ℤ → Type 0) (max_retries : ℕ) (delay : ℕ → ℤ) (func : W → Reply A E × W) (w : W)
      → ((k : ℕ) → P (delay k))
      → SleepsWithin P max_retries
          (attempts max_retries delay func (max_retries + 1) 0 none w).sleeps
  attempts-SleepsWithin P max_retries delay func w h =
      let (c, e) = attempts_total func max_retries delay w in
      rw e (record {
        count = omega (arith, length-delays delay 0 c.fails, c.allowed);
        each = All-delays P delay 0 c.fails h;
      })

  -- Whatever the function does, the exponential strategy sleeps at most as often as it may retry, and
  -- never longer than its longest delay.
  exponential_retry_bounded :
      (s : ExponentialBackoffRetry) (func : W → Reply A E × W) (w : W)
      → SleepsWithin
          (λ d. (pos 0 ≤ℤ d) × (d ≤ℤ pos s.max_delay))
          s.max_retries
          (exponential_retry s func w).sleeps
  unfolding exponential_retry
  exponential_retry_bounded s func w =
      attempts-SleepsWithin _ s.max_retries (exponential_delay s) func w
        λ k. unfold exponential_delay in ground arith

-- What the documentation of `random.uniform` promises.
abbrev pub IsUniform : Uniform → Type 0
IsUniform uniform =
    (k : ℕ) (lo hi : ℤ) → lo ≤ℤ hi → (lo ≤ℤ uniform k lo hi) × (uniform k lo hi ≤ℤ hi)

-- A jittered delay lies within the jitter factor of the exponential delay, after the cap.
abbrev pub Around : JitteredBackoffRetry → ℕ → ℤ → Type 0
Around s attempt d =
    let base = s.base_delay * s.exponential_base ^ attempt in
    (pos (min (base * (100 - s.jitter_factor)) (s.max_delay * 100)) ≤ℤ d)
    × (d ≤ℤ pos (min (base * (100 + s.jitter_factor)) (s.max_delay * 100)))

-- The same over one exponential delay `base`, factor, cap and drawn jitter.
jitter_bounds :
    (base factor cap : ℕ) (jitter : ℤ)
    → factor ≤ 100
    → (pos 0 -ℤ pos (base * factor)) ≤ℤ jitter
    → jitter ≤ℤ pos (base * factor)
    → let d = min_ℤ (pos (base * 100) +ℤ jitter) (pos cap) in
      (pos (min (base * (100 - factor)) cap) ≤ℤ d) × (d ≤ℤ pos (min (base * (100 + factor)) cap))
jitter_bounds base factor cap jitter f lo hi =
    let rest : 100 ≡ (100 - factor) + factor = omega arith in
    let parts : base * 100 ≡ base * (100 - factor) + base * factor =
      omega (arith, ap (λ (t : ℕ). base * t) rest) in
    let sum : base * (100 + factor) ≡ base * 100 + base * factor = omega arith in
    ground (arith, +ℤ_parts (pos (base * 100)) jitter, -ℤ_parts (pos 0) (pos (base * factor)))

-- If `uniform` keeps its range and the jitter factor is at most 1, then the delay after each attempt is
-- within the factor of the exponential delay, both capped at the longest delay.
jittered_delay-Around :
    (uniform : Uniform) (s : JitteredBackoffRetry) (attempt : ℕ)
    → IsUniform uniform
    → s.jitter_factor ≤ 100
    → Around s attempt (jittered_delay uniform s attempt)
unfolding jittered_delay
jittered_delay-Around uniform s attempt u f =
    let base = s.base_delay * s.exponential_base ^ attempt in
    let range = base * s.jitter_factor in
    let (lo, hi) =
      u attempt (pos 0 -ℤ pos range) (pos range) (omega (arith, -ℤ_parts (pos 0) (pos range))) in
    unfold jitter_range in jitter_bounds base s.jitter_factor (s.max_delay * 100) _ f lo hi
