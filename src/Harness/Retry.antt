-- ===== src/Harness/Retry.antt =====
-- core/harness/retry_strategies: the three strategies. The wrapped function acts on a world `W` that
-- it may change. It returns, raises an `Exception`, or raises what `except Exception` does not catch
-- (a cancellation). Delays are whole numbers of a unit, and a multiplier is a natural number.
-- `max_retries` is a natural number: with a negative one the loop has no round.
pub mod Attempts
pub mod Delays
mod Tests
use enterprise_ai_sales_orch.Prelude.{
  ℕ, zero, suc, ◌+◌, ◌*◌, ◌^◌, ◌==◌, List, [], ◌∷◌, min, if◌then◌else◌, Option, none, some,
}
use enterprise_ai_sales_orch.Prelude.Int.{ℤ, pos, ◌+ℤ◌, ◌-ℤ◌, min_ℤ}

pub data Reply (A E : Type 0) : Type 0 where
  returned : A → Reply A E
  raised : E → Reply A E
  interrupted : Reply A E

-- How `execute_with_retry` ends. `exhausted` is `RetryExhaustedError` from the last exception, and
-- `no_round` the line behind the loop, "should never reach here", with the last exception if any.
pub data Ending (A E : Type 0) : Type 0 where
  result : A → Ending A E
  exhausted : E → Ending A E
  cancelled : Ending A E
  no_round : Option E → Ending A E

-- the ending, the world, and the delays that were slept, in order
pub record Run (A E W : Type 0) : Type 0 where
  pub ending : Ending A E
  pub world : W
  pub sleeps : List ℤ

abbrev after_sleep : {A E W : Type 0} → ℤ → Run A E W → Run A E W
after_sleep d r = record r { sleeps = d ∷ r.sleeps }

-- The three classes share this loop, `for attempt in range(max_retries + 1)`, and differ in the
-- delay. The first number is the count of rounds left.
module _ {A E W : Type 0} (max_retries : ℕ) (delay : ℕ → ℤ) (func : W → Reply A E × W) where
  unfoldable pub attempts : ℕ → ℕ → Option E → W → Run A E W
  attempts zero attempt last w = record { ending = no_round last; world = w; sleeps = [] }
  attempts (suc rounds) attempt last w =
      let (reply, w') = func w in
      elim reply [
        | returned a ↦ record { ending = result a; world = w'; sleeps = [] }
        | interrupted ↦ record { ending = cancelled; world = w'; sleeps = [] }
        | raised e ↦
            let rest = attempts rounds (attempt + 1) (some e) w' in
            if attempt == max_retries
            then record { ending = exhausted e; world = w'; sleeps = [] }
            else after_sleep (delay attempt) rest
      ]

pub record ExponentialBackoffRetry : Type 0 where
  pub max_retries : ℕ
  pub base_delay : ℕ
  pub max_delay : ℕ
  pub exponential_base : ℕ

pub record LinearBackoffRetry : Type 0 where
  pub max_retries : ℕ
  pub base_delay : ℕ
  pub increment : ℕ

-- The jitter factor is in hundredths, and so the delays of this class are in hundredths of the unit
-- of `base_delay` and `max_delay`.
pub record JitteredBackoffRetry : Type 0 where
  pub max_retries : ℕ
  pub base_delay : ℕ
  pub max_delay : ℕ
  pub exponential_base : ℕ
  pub jitter_factor : ℕ

unfoldable pub exponential_delay : ExponentialBackoffRetry → ℕ → ℤ
exponential_delay s attempt = pos (min (s.base_delay * s.exponential_base ^ attempt) s.max_delay)

unfoldable pub linear_delay : LinearBackoffRetry → ℕ → ℤ
linear_delay s attempt = pos (s.base_delay + attempt * s.increment)

-- `random.uniform`, at each draw
abbrev pub Uniform : Type 0
Uniform = ℕ → ℤ → ℤ → ℤ

unfoldable pub jitter_range : JitteredBackoffRetry → ℕ → ℕ
jitter_range s attempt = s.base_delay * s.exponential_base ^ attempt * s.jitter_factor

unfoldable pub jittered_delay : Uniform → JitteredBackoffRetry → ℕ → ℤ
unfolding jitter_range
jittered_delay uniform s attempt =
    let range = jitter_range s attempt in
    min_ℤ
      (pos (s.base_delay * s.exponential_base ^ attempt * 100)
        +ℤ uniform attempt (pos 0 -ℤ pos range) (pos range))
      (pos (s.max_delay * 100))

module _ {A E W : Type 0} where
  unfoldable pub exponential_retry : ExponentialBackoffRetry → (W → Reply A E × W) → W → Run A E W
  unfolding attempts exponential_delay
  exponential_retry s func w =
      attempts s.max_retries (exponential_delay s) func (s.max_retries + 1) 0 none w

  unfoldable pub linear_retry : LinearBackoffRetry → (W → Reply A E × W) → W → Run A E W
  unfolding attempts linear_delay
  linear_retry s func w = attempts s.max_retries (linear_delay s) func (s.max_retries + 1) 0 none w

  unfoldable pub jittered_retry :
      Uniform → JitteredBackoffRetry → (W → Reply A E × W) → W → Run A E W
  unfolding attempts jittered_delay
  jittered_retry uniform s func w =
      attempts s.max_retries (jittered_delay uniform s) func (s.max_retries + 1) 0 none w
