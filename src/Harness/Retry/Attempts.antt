-- ===== src/Harness/Retry/Attempts.antt =====
-- What the retry loop does, for each way in which the calls of the function can go.
use enterprise_ai_sales_orch.Prelude.{
  inr, inl, refl, ◌⊎◌, ℕ, zero, suc, ◌+◌, ◌≤◌, ◌<◌, ◌≡◌, Option, none, some, List, [], ◌∷◌, arith,
}
use enterprise_ai_sales_orch.Prelude.Int.{ℤ}
use enterprise_ai_sales_orch.Harness.Retry.{
  Reply, returned, raised, interrupted, Ending, result, exhausted, cancelled, attempts,
}

-- The delays of the attempts from one on, as many as counted.
abbrev pub delays : (ℕ → ℤ) → ℕ → ℕ → List ℤ
delays delay attempt zero = []
delays delay attempt (suc n) = delay attempt ∷ delays delay (attempt + 1) n

module _ {A E W : Type 0} (func : W → Reply A E × W) where
  -- So many calls in turn raise exceptions, and lead from one world to another.
  abbrev pub Failing : ℕ → W → W → Type 0
  Failing zero w w' = w ≡ w'
  Failing (suc n) w w' = (e : E) × ((func w).0 ≡ raised e) × Failing n (func w).1 w'

  -- How the loop ends if the last call that it makes ends so.
  abbrev pub ending_of : Reply A E → Ending A E
  ending_of (returned a) = result a
  ending_of (raised e) = exhausted e
  ending_of interrupted = cancelled

  -- The call after which the loop stops: one that does not raise an exception, or that of the last
  -- attempt.
  abbrev pub Stops : ℕ → ℕ → Reply A E → Type 0
  Stops max_retries attempt (raised e) = attempt ≡ max_retries
  Stops max_retries attempt _ = attempt ≤ max_retries

  attempts_from :
      (max_retries : ℕ) (delay : ℕ → ℤ) (fails attempt rounds : ℕ) (last : Option E) (w w' : W)
      → attempt + rounds ≡ max_retries + 1
      → fails < rounds
      → Failing fails w w'
      → Stops max_retries (attempt + fails) (func w').0
      → attempts max_retries delay func rounds attempt last w ≡ record {
        ending = ending_of (func w').0;
        world = (func w').1;
        sleeps = delays delay attempt fails;
      }
  unfolding attempts
  attempts_from max_retries delay fails attempt zero last w w' n room run stop =
      absurd (omega arith)
  attempts_from max_retries delay zero attempt (suc rounds) last w w' n room same stop =
      rw same (ground arith)
  attempts_from max_retries delay (suc fails) attempt (suc rounds) last w w' n room run stop =
      let (e, bad, rest) = run in
      let shift : attempt + 1 + fails ≡ attempt + suc fails = omega arith in
      ground (
        arith,
        attempts_from max_retries delay fails (attempt + 1) rounds (some e) (func w).1 w'
            (omega arith) (omega arith) rest (rw shift stop),
      )

  Stops-le :
      (max_retries attempt : ℕ) (r : Reply A E)
      → Stops max_retries attempt r
      → attempt ≤ max_retries
  Stops-le max_retries attempt (returned a) h = h
  Stops-le max_retries attempt (raised e) h = omega arith
  Stops-le max_retries attempt interrupted h = h

  -- If so many calls in turn raise exceptions, and the next is the first that does not, within the
  -- retries allowed, or is that of the last retry, then the loop ends with the outcome of that call (its
  -- value, the exhaustion of the retries, or the cancellation), in the world that it leaves, having
  -- slept the delay of each attempt before it, in order, and no other.
  attempts_lem :
      (max_retries : ℕ) (delay : ℕ → ℤ) (fails : ℕ) (w w' : W)
      → Failing fails w w'
      → Stops max_retries fails (func w').0
      → attempts max_retries delay func (max_retries + 1) 0 none w ≡ record {
        ending = ending_of (func w').0;
        world = (func w').1;
        sleeps = delays delay 0 fails;
      }
  attempts_lem max_retries delay fails w w' run stop =
      let none_before : 0 + fails ≡ fails = omega arith in
      let stop' : Stops max_retries (0 + fails) (func w').0 = rw none_before stop in
      attempts_from max_retries delay fails 0 (max_retries + 1) none w w' (omega arith)
        (omega (arith, Stops-le max_retries fails (func w').0 stop)) run stop'

  -- A reply raises an exception, or the loop stops at it within the retries.
  Reply-cases :
      (r : Reply A E)
      → ((e : E) × (r ≡ raised e))
        ⊎ ((max_retries attempt : ℕ) → attempt ≤ max_retries → Stops max_retries attempt r)
  Reply-cases (returned a) = inr (λ m n h. h)
  Reply-cases (raised e) = inl (e, refl)
  Reply-cases interrupted = inr (λ m n h. h)

  Stops-last : (m : ℕ) (r : Reply A E) → Stops m m r
  Stops-last m (returned a) = omega arith
  Stops-last m (raised e) = refl
  Stops-last m interrupted = omega arith

  -- How the calls of the function go, from one attempt on: the failing ones, and the last.
  pub record Course (max_retries attempt : ℕ) (w : W) : Type 0 where
    pub fails : ℕ
    pub end : W
    pub allowed : attempt + fails ≤ max_retries
    pub failing : Failing fails w end
    pub stops : Stops max_retries (attempt + fails) (func end).0

  course :
      (max_retries rounds attempt : ℕ) (w : W)
      → attempt + rounds ≡ max_retries
      → Course max_retries attempt w
  course max_retries zero attempt w n =
      let at_end : attempt + 0 ≡ max_retries = omega arith in
      record {
        fails = 0;
        end = w;
        allowed = omega arith;
        failing = refl;
        stops = rw at_end (Stops-last max_retries (func w).0);
      }
  course max_retries (suc rounds) attempt w n =
      let shift = λ (k : ℕ). let e : attempt + suc k ≡ attempt + 1 + k = omega arith in e in
      elim (Reply-cases (func w).0) [
        | inl (e, bad) ↦
            let c = course max_retries rounds (attempt + 1) (func w).1 (omega arith) in
            record {
              fails = suc c.fails;
              end = c.end;
              allowed = omega (arith, c.allowed);
              failing = (e, bad, c.failing);
              stops = rw (shift c.fails) c.stops;
            }
        | inr stop ↦ record {
          fails = 0;
          end = w;
          allowed = omega arith;
          failing = refl;
          stops = stop max_retries (attempt + 0) (omega arith);
        }
      ]

  -- Whatever the function does, the loop has such a course, with at most as many failing calls before
  -- the last as there are retries, and ends as the last call says, in its world, having slept the
  -- delays of the failing calls. So the line behind the loop is never reached.
  pub attempts_total :
      (max_retries : ℕ) (delay : ℕ → ℤ) (w : W)
      → (c : Course max_retries 0 w) × (attempts max_retries delay func (max_retries + 1) 0 none w
          ≡ record {
            ending = ending_of (func c.end).0;
            world = (func c.end).1;
            sleeps = delays delay 0 c.fails;
          })
  attempts_total max_retries delay w =
      let c = course max_retries max_retries 0 w (omega arith) in
      let none_before : 0 + c.fails ≡ c.fails = omega arith in
      (c, attempts_lem max_retries delay c.fails w c.end c.failing (rw none_before at c.stops))
