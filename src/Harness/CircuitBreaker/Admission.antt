-- ===== src/Harness/CircuitBreaker/Admission.antt =====
-- When a call runs its function, and what a call that does not run it leaves behind.
use enterprise_ai_sales_orch.Prelude.{
  ℕ, ◌+◌, ◌≤◌, ◌<◌, ◌≡◌, ◌⊎◌, ◌↔◌, Bool, true, Option, none, some, arith,
}
use enterprise_ai_sales_orch.Harness.CircuitBreaker.{
  CircuitBreakerConfig, CircuitBreaker, closed, opened, half_open, Outcome, admit, call,
}

-- The last failure is none, or at least the timeout ago.
abbrev pub IsDue : CircuitBreakerConfig → ℕ → Option ℕ → Type 0
IsDue cfg now none = Unit
IsDue cfg now (some last) = last + cfg.timeout ≤ now

-- The breaker lets a call through at a time.
abbrev pub LetsThrough : CircuitBreakerConfig → ℕ → CircuitBreaker → Type 0
LetsThrough cfg now b =
    (b.state ≡ closed)
    ⊎ ((b.state ≡ half_open) × (b.half_open_calls < cfg.half_open_max_calls))
    ⊎ ((b.state ≡ opened) × IsDue cfg now b.last_failure_time × (0 < cfg.half_open_max_calls))

admit_sound :
    (cfg : CircuitBreakerConfig) (now : ℕ) (b : CircuitBreaker)
    → (admit cfg now b).0 ≡ true
    → LetsThrough cfg now b
unfolding admit
admit_sound cfg now b e = ground arith

admit_complete :
    (cfg : CircuitBreakerConfig) (now : ℕ) (b : CircuitBreaker)
    → LetsThrough cfg now b
    → (admit cfg now b).0 ≡ true
unfolding admit
admit_complete cfg now b e = ground arith

module _ {A E : Type 0} (cfg : CircuitBreakerConfig) (expected : E → Bool) where
  -- A call raises the breaker's own error exactly when the breaker does not let it through: it is
  -- neither closed, nor half open with a trial left, nor open with its timeout over and a trial
  -- allowed.
  call-eq-none_iff :
      (entered ended : ℕ) (func : Outcome A E) (b : CircuitBreaker)
      → ((call cfg expected entered ended func b).0 ≡ none) ↔ (¬ LetsThrough cfg entered b)
  unfolding call
  call-eq-none_iff entered ended func b =
      ground (arith, admit_sound cfg entered b, admit_complete cfg entered b)

  -- While an open breaker's timeout runs, a call fails at once and changes nothing.
  call_fails_fast :
      (entered ended last : ℕ) (func : Outcome A E) (b : CircuitBreaker)
      → b.state ≡ opened
      → b.last_failure_time ≡ some last
      → entered < last + cfg.timeout
      → call cfg expected entered ended func b ≡ (none, b)
  unfolding call
  call_fails_fast entered ended last func b s t h = ground arith
