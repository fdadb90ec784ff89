-- ===== src/Harness/CircuitBreaker/Tests.antt =====
-- Runs of the circuit breaker at concrete inputs.
use enterprise_ai_sales_orch.Prelude.{
  ℕ, zero, ◌≡◌, ◌≢◌, Bool, true, false, some, List, [], ◌∷◌, arith, refl,
}
use enterprise_ai_sales_orch.Harness.CircuitBreaker.{
  CircuitBreakerConfig, CircuitBreaker, closed, opened, half_open, init, Outcome, returned, raised,
  Event, enter, finish, call, run,
}
use enterprise_ai_sales_orch.Harness.CircuitBreaker.Invariant.{IsValid, init-IsValid, run-IsValid}
use enterprise_ai_sales_orch.Harness.CircuitBreaker.Trial.{Call, call_all, call_all-IsDown}

abbrev cfg : CircuitBreakerConfig
cfg = record { failure_threshold = 2; success_threshold = 2; timeout = 60; half_open_max_calls = 3 }

-- the decorator's `success_threshold=4`, beside the default of three trials
abbrev greedy : CircuitBreakerConfig
greedy = record cfg { success_threshold = 4 }

-- exception 0 counts, the others do not
abbrev expected : ℕ → Bool
expected zero = true
expected _ = false

abbrev seven : Outcome ℕ ℕ
seven = returned 7

abbrev good : ℕ → Call ℕ ℕ
good t = record { entered = t; ended = t; func = seven }

abbrev bad : ℕ → Call ℕ ℕ
bad t = record { entered = t; ended = t; func = raised 0 }

abbrev down : CircuitBreaker
down = record {
  state = opened;
  failure_count = 2;
  success_count = 0;
  last_failure_time = some 10;
  half_open_calls = 0;
}

abbrev trying : CircuitBreaker
trying = record down { state = half_open }

abbrev used_up : CircuitBreaker
used_up = record trying { success_count = 3; half_open_calls = 3 }

opens_after_two : call_all cfg expected (bad 5 ∷ bad 10 ∷ []) init ≡ down
unfolding call_all call init
opens_after_two = refl

stays_open_when_greedy :
    call_all greedy expected (good 70 ∷ good 71 ∷ good 72 ∷ good 1000 ∷ []) down ≡ used_up
unfolding call_all call
stays_open_when_greedy = refl

-- two calls that overlap, and both fail
abbrev overlapping : List (Event ℕ ℕ)
overlapping = enter 1 ∷ enter 2 ∷ finish 3 (raised 0) ∷ finish 4 (raised 0) ∷ []

run-IsValid_example : IsValid cfg (run cfg expected overlapping init)
run-IsValid_example =
    run-IsValid cfg (omega arith) (omega arith) expected overlapping init
      (init-IsValid cfg (omega arith) (omega arith))

call_all-IsDown_example :
    (call_all greedy expected (good 70 ∷ good 71 ∷ good 72 ∷ good 1000 ∷ []) down).state ≢ closed
call_all-IsDown_example =
    call_all-IsDown greedy expected (good 70 ∷ good 71 ∷ good 72 ∷ good 1000 ∷ []) down
      (omega arith) (record { down = cc; successes = omega arith; trials = omega arith })
