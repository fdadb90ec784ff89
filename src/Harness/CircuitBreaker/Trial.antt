-- ===== src/Harness/CircuitBreaker/Trial.antt =====
-- Calls made one after the other: how a breaker opens, recovers, and fails to recover.
use enterprise_ai_sales_orch.Prelude.{
  ℕ, ◌+◌, ◌≤◌, ◌<◌, ◌≡◌, ◌≢◌, Bool, true, none, List, [], ◌∷◌, arith, refl, length, All, ap,
}
use enterprise_ai_sales_orch.Harness.CircuitBreaker.{
  CircuitBreakerConfig, CircuitBreaker, closed, opened, half_open, Outcome, returned, raised, call,
}

-- A call: when it enters, when it ends, and what its function does if it is run.
pub record Call (A E : Type 0) : Type 0 where
  pub entered : ℕ
  pub ended : ℕ
  pub func : Outcome A E

-- What sequential calls keep while the breaker is not closed.
pub record IsDown (cfg : CircuitBreakerConfig) (b : CircuitBreaker) : Type 0 where
  pub down : b.state ≢ closed
  pub successes : b.success_count ≤ b.half_open_calls
  pub trials : b.half_open_calls ≤ cfg.half_open_max_calls

module _ {A E : Type 0} (cfg : CircuitBreakerConfig) (expected : E → Bool) where
  -- The breaker after each of the calls in turn.
  unfoldable pub call_all : List (Call A E) → CircuitBreaker → CircuitBreaker
  call_all [] b = b
  call_all (c ∷ cs) b = call_all cs (call cfg expected c.entered c.ended c.func b).1

  abbrev pub Fails : Call A E → Type 0
  Fails c = (e : E) × (c.func ≡ raised e) × (expected e ≡ true)

  abbrev pub Succeeds : Call A E → Type 0
  Succeeds c = (a : A) × (c.func ≡ returned a)

  fail_once :
      (c : Call A E) (b : CircuitBreaker)
      → b.state ≡ closed
      → Fails c
      → b.failure_count + 1 < cfg.failure_threshold
      → let b' = (call cfg expected c.entered c.ended c.func b).1 in
        (b'.state ≡ closed) × (b'.failure_count ≡ b.failure_count + 1)
  unfolding call
  fail_once c b s (e, func, counted) h = rw func (ground arith)

  fail_last :
      (c : Call A E) (b : CircuitBreaker)
      → b.state ≡ closed
      → Fails c
      → cfg.failure_threshold ≤ b.failure_count + 1
      → (call cfg expected c.entered c.ended c.func b).1.state ≡ opened
  unfolding call
  fail_last c b s (e, func, counted) h = rw func (ground arith)

  -- A closed breaker that lacks as many failures to its threshold as there are calls, one at least,
  -- is open after these calls, made one after the other, if each of them fails with an exception
  -- that counts.
  call_all_opens :
      (c : Call A E) (cs : List (Call A E)) (b : CircuitBreaker)
      → b.state ≡ closed
      → All Fails (c ∷ cs)
      → b.failure_count + length (c ∷ cs) ≡ cfg.failure_threshold
      → (call_all (c ∷ cs) b).state ≡ opened
  unfolding call_all
  call_all_opens c [] b s h n = fail_last c b s h.0 (omega arith)
  call_all_opens c (d ∷ cs) b s h n =
      let (still, counted) = fail_once c b s h.0 (omega arith) in
      call_all_opens d cs (call cfg expected c.entered c.ended c.func b).1 still h.1 (omega arith)

  succeed_once :
      (c : Call A E) (b : CircuitBreaker)
      → b.state ≡ half_open
      → Succeeds c
      → b.half_open_calls < cfg.half_open_max_calls
      → b.success_count + 1 < cfg.success_threshold
      → let b' = (call cfg expected c.entered c.ended c.func b).1 in
        (b'.state ≡ half_open)
        × (b'.success_count ≡ b.success_count + 1)
        × (b'.half_open_calls ≡ b.half_open_calls + 1)
  unfolding call
  succeed_once c b s (a, func) room h = rw func (ground arith)

  succeed_last :
      (c : Call A E) (b : CircuitBreaker)
      → b.state ≡ half_open
      → Succeeds c
      → b.half_open_calls < cfg.half_open_max_calls
      → cfg.success_threshold ≤ b.success_count + 1
      → let b' = (call cfg expected c.entered c.ended c.func b).1 in
        (b'.state ≡ closed) × (b'.failure_count ≡ 0)
  unfolding call
  succeed_last c b s (a, func) room h = rw func (ground arith)

  -- A half-open breaker that lacks as many successes to its threshold as there are calls, one at
  -- least, and has a trial left for each of them, is closed with no failure counted after these
  -- calls, made one after the other, if each of them succeeds.
  call_all_recovers :
      (c : Call A E) (cs : List (Call A E)) (b : CircuitBreaker)
      → b.state ≡ half_open
      → All Succeeds (c ∷ cs)
      → b.success_count + length (c ∷ cs) ≡ cfg.success_threshold
      → b.half_open_calls + length (c ∷ cs) ≤ cfg.half_open_max_calls
      → let b' = call_all (c ∷ cs) b in (b'.state ≡ closed) × (b'.failure_count ≡ 0)
  unfolding call_all
  call_all_recovers c [] b s h n room = succeed_last c b s h.0 (omega arith) (omega arith)
  call_all_recovers c (d ∷ cs) b s h n room =
      let (still, counted, used) = succeed_once c b s h.0 (omega arith) (omega arith) in
      call_all_recovers d cs (call cfg expected c.entered c.ended c.func b).1 still h.1
        (omega arith) (omega arith)

  call-IsDown :
      (c : Call A E) (b : CircuitBreaker)
      → cfg.half_open_max_calls < cfg.success_threshold
      → IsDown cfg b
      → IsDown cfg (call cfg expected c.entered c.ended c.func b).1
  unfolding call
  call-IsDown c b h d = ground arith

  -- If a half-open breaker admits fewer trials than the successes that it asks for, then a breaker
  -- that is not closed, and has counted no more successes than trials and no more trials than it
  -- admits, is not closed after any calls, made one after the other, whatever they return.
  pub call_all-IsDown :
      (cs : List (Call A E)) (b : CircuitBreaker)
      → cfg.half_open_max_calls < cfg.success_threshold
      → IsDown cfg b
      → (call_all cs b).state ≢ closed
  unfolding call_all
  call_all-IsDown [] b h d = d.down
  call_all-IsDown (c ∷ cs) b h d =
      call_all-IsDown cs (call cfg expected c.entered c.ended c.func b).1 h (call-IsDown c b h d)

  call_exhausted :
      (c : Call A E) (b : CircuitBreaker)
      → b.state ≡ half_open
      → cfg.half_open_max_calls ≤ b.half_open_calls
      → call cfg expected c.entered c.ended c.func b ≡ (none, b)
  unfolding call
  call_exhausted c b s h = ground arith

  -- A half-open breaker whose trials are used up never changes again by calls, made one after the
  -- other, whatever they return and whenever they come, and the next call raises the breaker's error.
  call_all_exhausted :
      (cs : List (Call A E)) (next : Call A E) (b : CircuitBreaker)
      → b.state ≡ half_open
      → cfg.half_open_max_calls ≤ b.half_open_calls
      → (call_all cs b ≡ b)
        × ((call cfg expected next.entered next.ended next.func (call_all cs b)).0 ≡ none)
  unfolding call_all
  call_all_exhausted [] next b s h = (refl, ap (λ r. r.0) (call_exhausted next b s h))
  call_all_exhausted (c ∷ cs) next b s h =
      rw (ap (λ r. r.1) (call_exhausted c b s h)) (call_all_exhausted cs next b s h)
