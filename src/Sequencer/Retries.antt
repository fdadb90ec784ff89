-- ===== src/Sequencer/Retries.antt =====
-- How the harness repeats a sequence.
use enterprise_ai_sales_orch.Prelude.{
  inr, inl, Bool-cases, refl, ℕ, zero, suc, ◌+◌, ◌*◌, ◌≤◌, ◌<◌, ◌≡◌, ◌≢◌, min, max, ltb, false,
  Option, All, length, arith,
}
use enterprise_ai_sales_orch.Prelude.Text.{Text}
use enterprise_ai_sales_orch.Harness.Retry.{Reply, returned, raised, interrupted}
use enterprise_ai_sales_orch.Sequencer.{
  SequenceRequest, SequenceResult, error, Settings, Services, Action,
}
use enterprise_ai_sales_orch.Sequencer.Harness.{
  ChannelSequencerAgentHarness, finished, failed, no_round, Run, rounds, checked, attempt_sequence,
  execute,
}

-- What a run of the harness keeps to: it ends with a result or a failure, after a positive number of
-- attempts, at most one more than the retries; and it slept once between attempts, never longer than
-- the longer of the first and the longest delay.
pub record Kept (h : ChannelSequencerAgentHarness) {W : Type 0} (run : Run SequenceResult W)
    : Type 0 where
  pub ends : run.ending ≢ no_round
  pub finishes :
      (r : SequenceResult) (k : ℕ)
      → run.ending ≡ finished r k
      → (k ≡ length run.sleeps + 1) × (r.status ≢ error)
  pub fails :
      (e : Text) (k : ℕ)
      → run.ending ≡ failed e k
      → (k ≡ h.max_retries + 1) × (length run.sleeps ≡ h.max_retries)
  pub slept : length run.sleeps ≤ h.max_retries
  pub delays : All (λ d. d ≤ max h.initial_backoff h.max_backoff) run.sleeps

module _ {W : Type 0} (h : ChannelSequencerAgentHarness) (body : Action W SequenceResult)
    (clean : (w : W) (r : SequenceResult) → (body w).0 ≡ returned r → r.status ≢ error) where
  record KeptFrom (attempt : ℕ) (run : Run SequenceResult W) : Type 0 where
    ends : run.ending ≢ no_round
    finishes :
        (r : SequenceResult) (k : ℕ)
        → run.ending ≡ finished r k
        → (k ≡ attempt + length run.sleeps + 1) × (r.status ≢ error)
    fails :
        (e : Text) (k : ℕ)
        → run.ending ≡ failed e k
        → (k ≡ h.max_retries + 1) × (attempt + length run.sleeps ≡ h.max_retries)
    slept : attempt + length run.sleeps ≤ h.max_retries
    delays : All (λ d. d ≤ max h.initial_backoff h.max_backoff) run.sleeps

  rounds-KeptFrom :
      (left attempt backoff : ℕ) (w : W)
      → left + attempt ≡ h.max_retries + 1
      → 0 < left
      → backoff ≤ max h.initial_backoff h.max_backoff
      → KeptFrom attempt (rounds h body left attempt backoff w)
  unfolding rounds
  rounds-KeptFrom zero attempt backoff w n p b = absurd (omega arith)
  rounds-KeptFrom (suc left) attempt backoff w n p b = by_reply (body w).0 refl (λ more.
      rounds-KeptFrom left (attempt + 1) (min (backoff * 2) h.max_backoff) (body w).1 (omega arith)
        (ground (arith, more)) (ground arith))
    where
      by_reply :
          (r : Reply SequenceResult Text)
          → (body w).0 ≡ r
          → (ltb h.max_retries (attempt + 1) ≡ false
              → KeptFrom
                  (attempt + 1)
                  (rounds h body left (attempt + 1) (min (backoff * 2) h.max_backoff) (body w).1))
          → KeptFrom attempt (rounds h body (suc left) attempt backoff w)
      by_reply (returned a) e ih = record {
        ends = ground (arith, e);
        finishes = λ r k f. ground (arith, e, f, clean w a);
        fails = λ x k f. ground (arith, e, f);
        slept = ground (arith, e);
        delays = ground (arith, e);
      }
      by_reply interrupted e ih = record {
        ends = ground (arith, e);
        finishes = λ r k f. ground (arith, e, f);
        fails = λ x k f. ground (arith, e, f);
        slept = ground (arith, e);
        delays = ground (arith, e);
      }
      by_reply (raised x) e ih =
          rw (e, rounds)
            (elim (Bool-cases (ltb h.max_retries (attempt + 1))) [
              | inl last ↦ rw last (record {
                ends = ground arith;
                finishes = λ r k f. ground (arith, f);
                fails = λ x' k f. ground (arith, f, last);
                slept = ground (arith, last);
                delays = tt;
              })
              | inr more ↦
                  let rest = ih more in
                  rw more (record {
                    ends = rest.ends;
                    finishes = λ r k f. ground (arith, rest.finishes r k f);
                    fails = λ x' k f. ground (arith, rest.fails x' k f);
                    slept = ground (arith, rest.slept);
                    delays = (b, rest.delays);
                  })
            ])

attempt-clean :
    {W : Type 0} (settings : Settings) (services : Services W) (request : Option SequenceRequest)
    (w : W) (r : SequenceResult)
    → (attempt_sequence settings services request w).0 ≡ returned r
    → r.status ≢ error
unfolding attempt_sequence checked
attempt-clean settings services request w r h = ground arith

-- Whatever the services do, the harness ends with a result or a failure, or by a cancellation. Its
-- result is no error, from one more attempt than it slept; it fails after one more attempt than the
-- retries. It sleeps at most as often as it may retry, and never longer than the longer of the first
-- and the longest delay.
pub execute-Kept :
    {W : Type 0} (settings : Settings) (services : Services W) (h : ChannelSequencerAgentHarness)
    (request : Option SequenceRequest) (w : W)
    → Kept h (execute settings services h request w)
unfolding execute
execute-Kept settings services h request w =
    let k =
      rounds-KeptFrom h (attempt_sequence settings services request)
        (attempt-clean settings services request) (h.max_retries + 1) 0 h.initial_backoff w
        (omega arith) (omega arith) (omega arith) in
    record {
      ends = k.ends;
      finishes = λ r n f. (omega (arith, (k.finishes r n f).0), (k.finishes r n f).1);
      fails = λ e n f. ((k.fails e n f).0, omega (arith, (k.fails e n f).1));
      slept = omega (arith, k.slept);
      delays = k.delays;
    }
