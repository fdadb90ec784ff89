-- ===== src/TokenBucket.antt =====
-- core/utils/rate_limiter.py: `TokenBucket`. Times are numbers of one unit, the rate is a whole number
-- of tokens in this unit, and so tokens are integers, which a clock that steps back can make negative.
-- A wait of `needed / rate` is compared after multiplication by the rate.
pub mod Bound
mod Tests
use enterprise_ai_sales_orch.Prelude.{
  ℕ, ◌+◌, ◌*◌, ◌-◌, ◌==◌, ltb, Bool, true, false, not, ◌&&◌, Option, none, some, List, [], ◌∷◌,
  if◌then◌else◌,
}
use enterprise_ai_sales_orch.Prelude.Int.{ℤ, pos, sub_ℕ, ◌+ℤ◌, ◌-ℤ◌, leb_ℤ, ltb_ℤ, min_ℤ}

pub record TokenBucket : Type 0 where
  pub rate : ℕ
  pub capacity : ℕ
  pub tokens : ℤ
  pub last_refill : ℕ

-- How `acquire` ends: with `True`, `False` or a division by a rate of zero; or it has not, when the
-- readings of the clock that it is given are used up.
pub data Answer : Type 0 where
  acquired refused zero_division waiting : Answer

-- `__init__`, at the time that it reads; a negative rate or capacity, which it rejects, is none here
unfoldable pub full : ℕ → ℕ → ℕ → TokenBucket
full rate capacity now = record {
  rate = rate;
  capacity = capacity;
  tokens = pos capacity;
  last_refill = now;
}

-- `_refill`; the time elapsed, times the rate, is written as a difference
unfoldable pub refill : ℕ → TokenBucket → TokenBucket
refill now b = record b {
  tokens = min_ℤ (pos b.capacity) (b.tokens +ℤ sub_ℕ (now * b.rate) (b.last_refill * b.rate));
  last_refill = now;
}

-- the block under the lock, up to its first `return`
unfoldable pub take_tokens : ℕ → ℕ → TokenBucket → Bool × TokenBucket
unfolding refill
take_tokens now wanted b =
    let b' = refill now b in
    if leb_ℤ (pos wanted) b'.tokens
    then (true, record b' { tokens = b'.tokens -ℤ pos wanted })
    else (false, b')

-- `elapsed + wait_time > timeout`, for the tokens that are there
unfoldable pub times_out : Option ℕ → ℕ → ℕ → ℕ → TokenBucket → Bool
times_out none start now wanted b = false
times_out (some timeout) start now wanted b =
    ltb_ℤ (pos (timeout * b.rate))
      (sub_ℕ (now * b.rate) (start * b.rate) +ℤ (pos wanted -ℤ b.tokens))

-- The loop of `acquire`, begun at `start`. Each round reads the clock for the refill, and again for
-- the timeout.
unfoldable pub acquire : ℕ → Bool → Option ℕ → ℕ → List (ℕ × ℕ) → TokenBucket → Answer × TokenBucket
unfolding take_tokens times_out
acquire wanted block timeout start [] b = (waiting, b)
acquire wanted block timeout start ((now, later) ∷ clock) b =
    let (taken, b') = take_tokens now wanted b in
    let rest = acquire wanted block timeout start clock b' in
    if taken
    then (acquired, b')
    else if not block
    then (refused, b')
    else if b'.rate == 0
    then (zero_division, b')
    else if times_out timeout start later wanted b'
    then (refused, b')
    else rest

-- `available`
unfoldable pub available : ℕ → TokenBucket → ℤ × TokenBucket
unfolding refill
available now b = let b' = refill now b in (b'.tokens, b')
