-- ===== src/Harness/CircuitBreaker.antt =====
-- core/harness/circuit_breaker.py. A reading of the clock, the timeout and the stored time are
-- numbers of one unit; `now - last >= timeout` is written `last + timeout <= now`, which is the
-- same over the integers, also when the clock steps back. Each block under the lock is one
-- function, so that calls of several threads are sequences of such blocks.
pub mod Invariant
pub mod Admission
pub mod Trial
mod Tests
use enterprise_ai_sales_orch.Prelude.{
  ℕ, ◌+◌, Bool, true, false, Option, none, some, List, [], ◌∷◌, leb, if◌then◌else◌,
}

-- `CircuitState`
pub data CircuitState : Type 0 where
  closed opened half_open : CircuitState

-- `CircuitBreakerConfig`, without the name that only the log uses
pub record CircuitBreakerConfig : Type 0 where
  pub failure_threshold : ℕ
  pub success_threshold : ℕ
  pub timeout : ℕ
  pub half_open_max_calls : ℕ

pub record CircuitBreaker : Type 0 where
  pub state : CircuitState
  pub failure_count : ℕ
  pub success_count : ℕ
  pub last_failure_time : Option ℕ
  pub half_open_calls : ℕ

-- `__init__`
unfoldable pub init : CircuitBreaker
init = record {
  state = closed;
  failure_count = 0;
  success_count = 0;
  last_failure_time = none;
  half_open_calls = 0;
}

abbrev pub is_closed : CircuitState → Bool
is_closed closed = true
is_closed _ = false

abbrev pub is_opened : CircuitState → Bool
is_opened opened = true
is_opened _ = false

abbrev pub is_half_open : CircuitState → Bool
is_half_open half_open = true
is_half_open _ = false

-- what the function does: return a value, or raise an exception
pub data Outcome (A E : Type 0) : Type 0 where
  returned : A → Outcome A E
  raised : E → Outcome A E

-- One block under the lock, as threads interleave them: the entry of a call at a time, the end of a
-- call that was let in, or a manual reset.
pub data Event (A E : Type 0) : Type 0 where
  enter : ℕ → Event A E
  finish : ℕ → Outcome A E → Event A E
  manual_reset : Event A E

unfoldable pub transition_to_open : CircuitBreaker → CircuitBreaker
transition_to_open b = record b { state = opened; success_count = 0; half_open_calls = 0 }

unfoldable pub transition_to_half_open : CircuitBreaker → CircuitBreaker
transition_to_half_open b = record b { state = half_open; success_count = 0; half_open_calls = 0 }

unfoldable pub transition_to_closed : CircuitBreaker → CircuitBreaker
transition_to_closed b = record b {
  state = closed;
  failure_count = 0;
  success_count = 0;
  half_open_calls = 0;
}

unfoldable pub reset : CircuitBreaker → CircuitBreaker
unfolding transition_to_closed
reset b = transition_to_closed b

module _ (cfg : CircuitBreakerConfig) where
  waited : ℕ → Option ℕ → Bool
  waited now none = true
  waited now (some last) = leb (last + cfg.timeout) now

  unfoldable pub should_attempt_reset : ℕ → CircuitBreaker → Bool
  unfolding waited
  should_attempt_reset now b = waited now b.last_failure_time

  -- the test of the first block of `call`; `none` is the raise of `CircuitBreakerOpenError`
  enter_half_open : CircuitBreaker → Option CircuitBreaker
  enter_half_open b =
      if is_half_open b.state
      then if leb cfg.half_open_max_calls b.half_open_calls
        then none
        else some (record b { half_open_calls = b.half_open_calls + 1 })
      else some b

  -- the state in which the first block of `call` ends or raises
  attempted : ℕ → CircuitBreaker → Option CircuitBreaker
  unfolding should_attempt_reset transition_to_half_open
  attempted now b =
      if is_opened b.state
      then if should_attempt_reset now b then some (transition_to_half_open b) else none
      else some b

  -- the first block of `call`: whether the function is run, and the breaker afterwards
  unfoldable pub admit : ℕ → CircuitBreaker → Bool × CircuitBreaker
  unfolding attempted enter_half_open
  admit now b = elim (attempted now b) [
    | none ↦ (false, b)
    | some b' ↦ elim (enter_half_open b') [ none ↦ (false, b') | some b'' ↦ (true, b'') ]
  ]

  unfoldable pub on_success : CircuitBreaker → CircuitBreaker
  unfolding transition_to_closed
  on_success b = elim b.state [
    | half_open ↦
        if leb cfg.success_threshold (b.success_count + 1)
        then transition_to_closed (record b { success_count = b.success_count + 1 })
        else record b { success_count = b.success_count + 1 }
    | closed ↦ record b { failure_count = 0 }
    | opened ↦ b
  ]

  -- the branches of `_on_failure`, after it has stored the time
  count_failure : CircuitBreaker → CircuitBreaker
  unfolding transition_to_open
  count_failure b = elim b.state [
    | half_open ↦ transition_to_open b
    | closed ↦
        if leb cfg.failure_threshold (b.failure_count + 1)
        then transition_to_open (record b { failure_count = b.failure_count + 1 })
        else record b { failure_count = b.failure_count + 1 }
    | opened ↦ b
  ]

  unfoldable pub on_failure : ℕ → CircuitBreaker → CircuitBreaker
  unfolding count_failure
  on_failure now b = count_failure (record b { last_failure_time = some now })

  module _ {A E : Type 0} (expected : E → Bool) where
    -- the end of `call`, at the time that `_on_failure` reads
    unfoldable pub settle : ℕ → Outcome A E → CircuitBreaker → CircuitBreaker
    unfolding on_success on_failure
    settle now (returned a) b = on_success b
    settle now (raised e) b = if expected e then on_failure now b else b

    -- `call`, with no other call between its blocks: the clock is read at `entered` and at `ended`,
    -- and `func` is what the function does, if it is run. `none` is `CircuitBreakerOpenError`.
    unfoldable pub call :
        ℕ → ℕ → Outcome A E → CircuitBreaker → Option (Outcome A E) × CircuitBreaker
    unfolding admit settle
    call entered ended func b =
        let (admitted, b') = admit entered b in
        if admitted then (some func, settle ended func b') else (none, b')

    unfoldable pub step : Event A E → CircuitBreaker → CircuitBreaker
    unfolding admit settle reset
    step (enter now) b = (admit now b).1
    step (finish now o) b = settle now o b
    step manual_reset b = reset b

    unfoldable pub run : List (Event A E) → CircuitBreaker → CircuitBreaker
    run [] b = b
    run (e ∷ es) b = run es (step e b)
