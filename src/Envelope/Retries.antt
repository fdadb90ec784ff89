-- ===== src/Envelope/Retries.antt =====
-- The life of an envelope that is retried.
use enterprise_ai_sales_orch.Prelude.{ℕ, zero, suc, ◌+◌, ◌≤◌, ◌<◌, ◌≡◌, ◌↔◌, refl, arith}
use enterprise_ai_sales_orch.Envelope.{Envelope, retry, dlq, increment_retry}

module _ {P D : Type 0} where
  -- So many further retries, one after the other.
  unfoldable pub retried : ℕ → Envelope P D → Envelope P D
  retried zero e = e
  retried (suc n) e = retried n (increment_retry e)

  -- The count and the status after a retry, and that all else is as before.
  pub record IsRetried (n : ℕ) (e e' : Envelope P D) : Type 0 where
    pub count : e'.metadata.retry_count ≡ e.metadata.retry_count + n
    pub dead : (e'.status ≡ dlq) ↔ (e.metadata.max_retries ≤ e.metadata.retry_count + n)
    pub alive : (e'.status ≡ retry) ↔ (e.metadata.retry_count + n < e.metadata.max_retries)
    pub rest : e' ≡ record e {
      metadata = record e.metadata { retry_count = e'.metadata.retry_count };
      status = e'.status;
    }

  -- After any positive number of retries, the count has grown by that number; the envelope is a dead
  -- letter exactly when the count has reached the maximum, and to be retried exactly when it has not;
  -- and nothing but the count and the status has changed.
  pub retried-IsRetried : (n : ℕ) (e : Envelope P D) → IsRetried (suc n) e (retried (suc n) e)
  unfolding retried increment_retry
  retried-IsRetried zero e = record {
    count = ground arith;
    dead = ground arith;
    alive = ground arith;
    rest = refl;
  }
  retried-IsRetried (suc n) e =
      let r = retried-IsRetried n (increment_retry e) in
      record {
        count = ground (arith, r.count);
        dead = ground (arith, r.dead);
        alive = ground (arith, r.alive);
        rest = r.rest;
      }
