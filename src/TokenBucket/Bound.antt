-- ===== src/TokenBucket/Bound.antt =====
-- What the bucket lets through.
use enterprise_ai_sales_orch.Prelude.{
  ℕ, ◌+◌, ◌*◌, ◌≤◌, ◌<◌, ◌≡◌, true, false, List, [], ◌∷◌, none, ◌-◌, refl, ap, sym, ◌∙◌, arith,
  if◌then◌else◌,
}
use enterprise_ai_sales_orch.Prelude.Int.{◌-ℤ◌, ℤ, pos, ◌≤ℤ◌, ◌+ℤ◌}
use enterprise_ai_sales_orch.TokenBucket.{TokenBucket, waiting, full, take_tokens, acquire}

-- Attempts in turn, each at a time and for a number of tokens, as the blocks of several threads come
-- one after the other: the tokens that are taken in all, and the bucket.
unfoldable pub take_all : List (ℕ × ℕ) → ℕ → TokenBucket → ℕ × TokenBucket
take_all [] taken b = (taken, b)
take_all ((now, wanted) ∷ tries) taken b =
    let (given, b') = take_tokens now wanted b in
    take_all tries (if given then taken + wanted else taken) b'

-- times that do not step back
abbrev pub Ascends : ℕ → List (ℕ × ℕ) → Type 0
Ascends last [] = Unit {0}
Ascends last ((now, wanted) ∷ tries) = (last ≤ now) × Ascends now tries

-- What a bucket keeps that was full at `start`, and gave `taken` tokens since.
record Keeps (start taken : ℕ) (b : TokenBucket) : Type 0 where
  there : pos 0 ≤ℤ b.tokens
  paid : (pos (taken + start * b.rate) +ℤ b.tokens) ≤ℤ pos (b.capacity + b.last_refill * b.rate)

take_tokens-Keeps :
    (start taken now wanted : ℕ) (b : TokenBucket)
    → b.last_refill * b.rate ≤ now * b.rate
    → Keeps start taken b
    → let r = take_tokens now wanted b in Keeps start (if r.0 then taken + wanted else taken) r.1
unfolding take_tokens ◌+ℤ◌ ◌-ℤ◌
take_tokens-Keeps start taken now wanted b up k = record {
  there = ground (arith, k.there, k.paid, up);
  paid = ground (arith, k.there, k.paid, up);
}

mul_le : (a b c : ℕ) → a ≤ b → a * c ≤ b * c
mul_le a b c h =
    let rest : b ≡ a + (b - a) = omega arith in omega (arith, ap (λ (t : ℕ). t * c) rest)

take_tokens-last :
    (now wanted : ℕ) (b : TokenBucket) → (take_tokens now wanted b).1.last_refill ≡ now
unfolding take_tokens
take_tokens-last now wanted b = ground arith

take_tokens-same :
    (now wanted : ℕ) (b : TokenBucket)
    → ((take_tokens now wanted b).1.rate ≡ b.rate)
      × ((take_tokens now wanted b).1.capacity ≡ b.capacity)
unfolding take_tokens
take_tokens-same now wanted b = (ground arith, ground arith)

take_all-same :
    (tries : List (ℕ × ℕ)) (taken : ℕ) (b : TokenBucket)
    → ((take_all tries taken b).1.rate ≡ b.rate)
      × ((take_all tries taken b).1.capacity ≡ b.capacity)
unfolding take_all
take_all-same [] taken b = (refl, refl)
take_all-same ((now, wanted) ∷ tries) taken b =
    let r = take_tokens now wanted b in
    let (rate, capacity) = take_all-same tries (if r.0 then taken + wanted else taken) r.1 in
    let (rate', capacity') = take_tokens-same now wanted b in (rate ∙ rate', capacity ∙ capacity')

take_all-Keeps :
    (start : ℕ) (tries : List (ℕ × ℕ)) (taken : ℕ) (b : TokenBucket)
    → Ascends b.last_refill tries
    → Keeps start taken b
    → let r = take_all tries taken b in Keeps start r.0 r.1
unfolding take_all
take_all-Keeps start [] taken b up k = k
take_all-Keeps start ((now, wanted) ∷ tries) taken b up k =
    let r = take_tokens now wanted b in
    take_all-Keeps start tries (if r.0 then taken + wanted else taken) r.1
      (rw (take_tokens-last now wanted b) up.1)
      (take_tokens-Keeps start taken now wanted b (mul_le b.last_refill now b.rate up.0) k)

+ℤ_pos : (a b c : ℕ) → a + b ≤ c → (pos a +ℤ pos b) ≤ℤ pos c
unfolding ◌+ℤ◌
+ℤ_pos a b c h = ground arith

positive : (a c : ℕ) (z : ℤ) → pos 0 ≤ℤ z → (pos a +ℤ z) ≤ℤ pos c → a ≤ c
unfolding ◌+ℤ◌
positive a c z h p = ground (arith, h, p)

paid_taken :
    (start taken : ℕ) (b : TokenBucket) (rate capacity : ℕ)
    → Keeps start taken b
    → b.rate ≡ rate
    → b.capacity ≡ capacity
    → taken + start * rate ≤ capacity + b.last_refill * rate
paid_taken start taken b rate capacity k r c =
    rw (sym r, sym c)
      (positive (taken + start * b.rate) (b.capacity + b.last_refill * b.rate) b.tokens k.there
        k.paid)

-- From a full bucket, attempts at times that do not step back, of any threads in any order, take no
-- more tokens in all than the capacity and the rate times the time that has passed.
pub take_all_bounded :
    (rate capacity start : ℕ) (tries : List (ℕ × ℕ))
    → Ascends start tries
    → let (taken, b) = take_all tries 0 (full rate capacity start) in
      taken + start * rate ≤ capacity + b.last_refill * rate
unfolding full
take_all_bounded rate capacity start tries up =
    let b = full rate capacity start in
    let (r, c) = take_all-same tries 0 b in
    let k = take_all-Keeps start tries 0 b up (record {
      there = ground arith;
      paid = +ℤ_pos (0 + start * rate) capacity (capacity + start * rate) (omega arith);
    }) in
    paid_taken start (take_all tries 0 b).0 (take_all tries 0 b).1 rate capacity k r c

not_taken :
    (now wanted : ℕ) (b : TokenBucket) → b.capacity < wanted → (take_tokens now wanted b).0 ≡ false
unfolding take_tokens
not_taken now wanted b over = ground arith

-- More tokens than the capacity are never acquired, whatever the readings of the clock: without a
-- timeout, a blocking call for them has not ended after any of them, if the rate is positive.
acquire_never :
    (wanted start : ℕ) (clock : List (ℕ × ℕ)) (b : TokenBucket)
    → b.capacity < wanted
    → 0 < b.rate
    → (acquire wanted true none start clock b).0 ≡ waiting
unfolding acquire
acquire_never wanted start [] b over moving = refl
acquire_never wanted start ((now, later) ∷ clock) b over moving =
    let r = take_tokens now wanted b in
    let (rate, capacity) = take_tokens-same now wanted b in
    let later_waits = acquire_never wanted start clock r.1 (rw capacity over) (rw rate moving) in
    ground (arith, not_taken now wanted b over, rate, moving, later_waits)
