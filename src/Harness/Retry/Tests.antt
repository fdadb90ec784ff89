-- ===== src/Harness/Retry/Tests.antt =====
-- Runs of the retry strategies at concrete inputs.
use enterprise_ai_sales_orch.Prelude.{
  ℕ, ◌+◌, ◌*◌, ◌≡◌, none, [], ◌∷◌, arith, refl, if◌then◌else◌, ltb,
}
use enterprise_ai_sales_orch.Prelude.Int.{ℤ, pos, ◌+ℤ◌, ◌-ℤ◌}
use enterprise_ai_sales_orch.Harness.Retry.{
  Reply, returned, raised, result, exhausted, attempts, ExponentialBackoffRetry,
  JitteredBackoffRetry, Uniform, exponential_retry, jittered_delay,
}
use enterprise_ai_sales_orch.Harness.Retry.Attempts.{Course, ending_of, delays, attempts_total}
use enterprise_ai_sales_orch.Harness.Retry.Delays.{IsUniform}

-- a function that counts its calls in the world, and fails before the third
abbrev flaky : ℕ → Reply ℕ ℕ × ℕ
flaky w = (if ltb w 2 then raised w else returned 9, w + 1)

abbrev doubling : ExponentialBackoffRetry
doubling = record { max_retries = 3; base_delay = 4; max_delay = 6; exponential_base = 2 }

retries_until_success :
    exponential_retry doubling flaky 0
    ≡ record { ending = result 9; world = 3; sleeps = pos 4 ∷ pos 6 ∷ [] }
unfolding exponential_retry
retries_until_success = refl

gives_up : (exponential_retry (record doubling { max_retries = 1 }) flaky 0).ending ≡ exhausted 1
unfolding exponential_retry
gives_up = refl

abbrev tens : ℕ → ℤ
tens n = pos (10 * n)

attempts_total_example :
    (c : Course flaky 1 0 0) × (attempts 1 tens flaky 2 0 none 0 ≡ record {
      ending = ending_of flaky (flaky c.end).0;
      world = (flaky c.end).1;
      sleeps = delays tens 0 c.fails;
    })
attempts_total_example = attempts_total flaky 1 tens 0

abbrev jittery : JitteredBackoffRetry
jittery = record {
  max_retries = 3;
  base_delay = 4;
  max_delay = 60;
  exponential_base = 2;
  jitter_factor = 30;
}

-- a source of numbers that always draws the lowest
abbrev lowest : Uniform
lowest k lo hi = lo

lowest_jitter : jittered_delay lowest jittery 1 ≡ pos 560
unfolding jittered_delay ◌+ℤ◌ ◌-ℤ◌
lowest_jitter = refl

lowest-IsUniform : IsUniform lowest
lowest-IsUniform k lo hi h = (omega arith, h)
