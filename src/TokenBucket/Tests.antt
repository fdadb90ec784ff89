-- ===== src/TokenBucket/Tests.antt =====
-- Runs of a bucket of five tokens that gains two in a unit of time.
use enterprise_ai_sales_orch.Prelude.{◌+◌, ◌*◌, ◌≤◌, ◌≡◌, true, some, [], ◌∷◌, refl, arith}
use enterprise_ai_sales_orch.Prelude.Int.{◌+ℤ◌, ◌-ℤ◌}
use enterprise_ai_sales_orch.TokenBucket.{
  take_tokens, full, acquire, acquired, refused, zero_division,
}
use enterprise_ai_sales_orch.TokenBucket.Bound.{take_all, take_all_bounded}

drained : (take_all ((10, 4) ∷ (10, 2) ∷ (11, 3) ∷ []) 0 (full 2 5 10)).0 ≡ 7
unfolding take_all full take_tokens ◌+ℤ◌ ◌-ℤ◌
drained = refl

blocks_until_there :
    (acquire 4 true (some 9) 10 ((10, 10) ∷ (11, 11) ∷ []) (full 2 5 10)).0 ≡ acquired
unfolding acquire full ◌+ℤ◌ ◌-ℤ◌
blocks_until_there = refl

-- With a rate of zero, a blocking call for more than there is divides by zero.
stopped_bucket : (acquire 6 true (some 9) 10 ((10, 10) ∷ []) (full 0 5 10)).0 ≡ zero_division
unfolding acquire full ◌+ℤ◌ ◌-ℤ◌
stopped_bucket = refl

times_out_at_once : (acquire 9 true (some 1) 10 ((10, 10) ∷ []) (full 2 5 10)).0 ≡ refused
unfolding acquire full ◌+ℤ◌ ◌-ℤ◌
times_out_at_once = refl

take_all_bounded_example :
    let (taken, b) = take_all ((10, 4) ∷ (10, 2) ∷ (11, 3) ∷ []) 0 (full 2 5 10) in
    taken + 10 * 2 ≤ 5 + b.last_refill * 2
take_all_bounded_example =
    take_all_bounded 2 5 10 ((10, 4) ∷ (10, 2) ∷ (11, 3) ∷ []) (up10, (up10, (up11, tt)))
  where
    up10 : 10 ≤ 10
    up10 = omega arith

    up11 : 10 ≤ 11
    up11 = omega arith
