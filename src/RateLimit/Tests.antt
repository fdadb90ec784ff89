-- ===== src/RateLimit/Tests.antt =====
-- Runs of the limiter with two requests allowed in ten seconds.
use enterprise_ai_sales_orch.Prelude.{refl, ◌+◌, ◌≤◌, ◌<◌, ◌≡◌, ◌↔◌, true, [], ◌∷◌, ℕ, arith}
use native.Mathlib.Decide.{ℕ_discrete}
use enterprise_ai_sales_orch.RateLimit.{check_rate_limit}
use enterprise_ai_sales_orch.RateLimit.Bound.{check_all, check_all_bounded, recent, within}

-- the requests of the first key are at 1, 4, 5, which is refused, and 12
check_all_bounded_example :
    let (past, requests) =
      check_all ℕ_discrete (λ _. 2) 10 7 ((7, 1) ∷ (7, 4) ∷ (8, 4) ∷ (7, 5) ∷ []) ([], λ _. []) in
    let (verdict, requests') = check_rate_limit ℕ_discrete 7 2 10 12 requests in
    ((t : ℕ) → within 10 t past ≤ 2)
    × ((verdict.allowed ≡ true) ↔ (recent 10 12 past < 2))
    × (verdict.allowed ≡ true → verdict.remaining + recent 10 12 past + 1 ≡ 2)
check_all_bounded_example =
    check_all_bounded ℕ_discrete (λ _. 2) 10 ((7, 1) ∷ (7, 4) ∷ (8, 4) ∷ (7, 5) ∷ []) 7 12
      (omega arith, (omega arith, (omega arith, (omega arith, omega arith))))

-- The next check is allowed, as the request at 1 is too old for its window.
allowed_again :
    let s =
      check_all ℕ_discrete (λ _. 2) 10 7 ((7, 1) ∷ (7, 4) ∷ (8, 4) ∷ (7, 5) ∷ []) ([], λ _. []) in
    (check_rate_limit ℕ_discrete 7 2 10 12 s.1).0.allowed ≡ true
unfolding check_all check_rate_limit ℕ_discrete
allowed_again = refl
