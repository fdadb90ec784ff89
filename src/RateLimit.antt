-- ===== src/RateLimit.antt =====
-- api/gateway/middleware/rate_limit.py: `InMemoryRateLimiter`. Times are whole seconds; `ts > now -
-- window` is written `now < ts + window`. The `defaultdict` is a total function.
pub mod Bound
mod Tests
use enterprise_ai_sales_orch.Prelude.{
  ℕ, ◌+◌, ◌-◌, ltb, leb, Bool, true, false, List, [], ◌∷◌, ◌++◌, keep, length, if◌then◌else◌,
}
use enterprise_ai_sales_orch.Prelude.Int.{ℤ, pos, sub_ℕ, ◌+ℤ◌}

-- what a check returns
pub record Verdict : Type 0 where
  pub allowed : Bool
  pub remaining : ℕ
  pub reset_time : ℤ

unfoldable pub in_window : ℕ → ℕ → ℕ → Bool
in_window window now ts = ltb now (ts + window)

-- `check_rate_limit` of the limiter, at the time that it reads; a count below the limit leaves
-- `max(0, limit - count) - 1`, which is at least 0
unfoldable pub check_rate_limit :
    {K : Type 0} → Discrete K → K → ℕ → ℕ → ℕ → (K → List ℕ) → Verdict × (K → List ℕ)
unfolding in_window
check_rate_limit same k max_requests window now requests =
    let recent = keep (in_window window now) (requests k) in
    let reset_time = sub_ℕ now window +ℤ pos window in
    if leb max_requests (length recent)
    then (
      record { allowed = false; remaining = 0; reset_time = reset_time },
      λ j. elim (same k j) [ yes _ ↦ recent | no _ ↦ requests j ],
    )
    else (
      record {
        allowed = true;
        remaining = max_requests - length recent - 1;
        reset_time = reset_time;
      },
      λ j. elim (same k j) [ yes _ ↦ recent ++ now ∷ [] | no _ ↦ requests j ],
    )
