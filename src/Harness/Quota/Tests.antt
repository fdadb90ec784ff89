-- ===== src/Harness/Quota/Tests.antt =====
-- Runs of the in-memory quota at concrete inputs.
use enterprise_ai_sales_orch.Prelude.{◌≤◌, ◌≡◌, [], ◌∷◌, arith, refl}
use native.Mathlib.Decide.{ℕ_discrete}
use enterprise_ai_sales_orch.Harness.Quota.{init, request, store}
use enterprise_ai_sales_orch.Harness.Quota.Window.{in_window, requests, requests_bounded}

-- two in a window of 10; the third waits for the first to leave
second_refused :
    (requests ℕ_discrete 7 (1 ∷ 2 ∷ 3 ∷ 12 ∷ []) ([], init 2 10)).0 ≡ (1, 1) ∷ (2, 1) ∷ (12, 1) ∷ []
unfolding requests request init store ℕ_discrete
second_refused = refl

requests_bounded_example :
    in_window 10 12 (requests ℕ_discrete 7 (1 ∷ 2 ∷ 3 ∷ 12 ∷ []) ([], init 2 10)).0 ≤ 2
requests_bounded_example =
    requests_bounded ℕ_discrete 7 2 10 0 (1 ∷ 2 ∷ 3 ∷ 12 ∷ []) 12 (omega arith)
