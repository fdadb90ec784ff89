-- ===== src/Harness/CircuitBreaker/Invariant.antt =====
-- What holds of a circuit breaker in each of its states, under every interleaving of calls.
use enterprise_ai_sales_orch.Prelude.{ℕ, ◌≤◌, ◌<◌, ◌≡◌, ◌≢◌, Bool, none, List, [], ◌∷◌, arith}
use enterprise_ai_sales_orch.Harness.CircuitBreaker.{
  CircuitBreakerConfig, CircuitBreaker, closed, opened, half_open, init, returned, raised, admit,
  on_success, on_failure, reset, Event, enter, finish, manual_reset, step, run,
}

module _ (cfg : CircuitBreakerConfig) where
  -- The counters of each state stay below its limits, and an open breaker knows its last failure.
  pub record IsValid (b : CircuitBreaker) : Type 0 where
    pub failures : b.failure_count ≤ cfg.failure_threshold
    pub closed_failures : b.state ≡ closed → b.failure_count < cfg.failure_threshold
    pub closed_calls : b.state ≡ closed → b.half_open_calls ≡ 0
    pub opened_calls : b.state ≡ opened → b.half_open_calls ≡ 0
    pub opened_time : b.state ≡ opened → b.last_failure_time ≢ none
    pub trial_calls : b.half_open_calls ≤ cfg.half_open_max_calls
    pub successes : b.success_count < cfg.success_threshold
    pub idle_successes : b.state ≢ half_open → b.success_count ≡ 0

  module _ (some_failures : 0 < cfg.failure_threshold)
      (some_successes : 0 < cfg.success_threshold) where
    pub init-IsValid : IsValid init
    unfolding init
    init-IsValid = ground arith

    pub admit-IsValid : (now : ℕ) (b : CircuitBreaker) → IsValid b → IsValid (admit cfg now b).1
    unfolding admit
    admit-IsValid now b h = ground arith

    pub on_success-IsValid : (b : CircuitBreaker) → IsValid b → IsValid (on_success cfg b)
    unfolding on_success
    on_success-IsValid b h = ground arith

    pub on_failure-IsValid :
        (now : ℕ) (b : CircuitBreaker) → IsValid b → IsValid (on_failure cfg now b)
    unfolding on_failure
    on_failure-IsValid now b h = ground arith

    pub reset-IsValid : (b : CircuitBreaker) → IsValid b → IsValid (reset b)
    unfolding reset
    reset-IsValid b h = ground arith

    module _ {A E : Type 0} (expected : E → Bool) where
      step-IsValid :
          (e : Event A E) (b : CircuitBreaker) → IsValid b → IsValid (step cfg expected e b)
      unfolding step
      step-IsValid (enter now) b h = admit-IsValid now b h
      step-IsValid (finish now (returned a)) b h = on_success-IsValid b h
      step-IsValid (finish now (raised x)) b h = ground (arith, on_failure-IsValid now b h)
      step-IsValid manual_reset b h = reset-IsValid b h

      -- With positive thresholds, from a breaker in which the counters of its state are below their limits
      -- and an open breaker knows its last failure, every sequence of entries, ends and resets, of any
      -- number of calls in any order, leads to such a breaker.
      pub run-IsValid :
          (es : List (Event A E)) (b : CircuitBreaker) → IsValid b → IsValid (run cfg expected es b)
      unfolding run
      run-IsValid [] b h = h
      run-IsValid (e ∷ es) b h = run-IsValid es (step cfg expected e b) (step-IsValid e b h)
