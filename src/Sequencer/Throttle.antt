-- ===== src/Sequencer/Throttle.antt =====
-- The hourly limit bounds the emails of a sequence, with all its retries.
use enterprise_ai_sales_orch.Prelude.{
  zero, ◌*◌, min, suc, some, ◌-◌, inr, inl, Bool-cases, refl, ℕ, ◌+◌, ◌≤◌, ◌<◌, ◌≡◌, ◌≢◌, ltb, Bool,
  true, false, none, List, [], ◌∷◌, arith, if◌then◌else◌,
}
use enterprise_ai_sales_orch.Prelude.Text.{lower, Text}
use enterprise_ai_sales_orch.Harness.Retry.{Reply, returned, raised, interrupted}
use enterprise_ai_sales_orch.Sequencer.{
  SequenceResult, Action, SequenceStep, SequenceRequest, Settings, Services, ◌>>=◌, pure,
}
use enterprise_ai_sales_orch.Sequencer.Guards.{over_limit, thread_check, limits, throttle_check}
use enterprise_ai_sales_orch.Sequencer.Agent.{
  summary, build_sequence, is_new_thread, deliver_email, send_email_step, dispatch_webhook_step,
  run_step, run_steps,
}
use enterprise_ai_sales_orch.Sequencer.Harness.{
  ChannelSequencerAgentHarness, rounds, attempt_sequence, execute,
}

-- The documented behaviour of `INCR` on counters: it adds one, to the counter of its key and to no
-- other, and returns the sum. Nothing else that the agent calls reaches the counters, and one hour lasts
-- for the whole run. The emails that were handed to the mail server are counted: a call of it hands
-- over one at most, whether it returns or raises, and no other call does.
pub record CountsIn {W : Type 0} (services : Services W) (tenant : Text) (key : Text)
    (count : Text → W → ℕ) (mails : W → ℕ) : Type 0 where
  pub on : services.has_redis ≡ true
  pub hour : (w : W) → services.hour_key tenant w ≡ key
  pub day : (w : W) → services.day_key tenant w ≢ key
  pub added :
      (k : Text) (w : W) (n : ℕ)
      → (services.incr k w).0 ≡ returned n
      → (n ≡ count k w + 1) × (count k (services.incr k w).1 ≡ count k w + 1)
  pub grows : (k : Text) (w : W) → count k w ≤ count k (services.incr k w).1
  pub others : (j k : Text) (w : W) → j ≢ k → count k (services.incr j w).1 ≡ count k w
  pub sends :
      (k : Text) (step : SequenceStep) (w : W) → count k (services.send_email step w).1 ≡ count k w
  pub posts :
      (k url : Text) (step : SequenceStep) (r : SequenceRequest) (w : W)
      → count k (services.post_webhook url step r w).1 ≡ count k w
  pub one_mail : (step : SequenceStep) (w : W) → mails (services.send_email step w).1 ≤ mails w + 1
  pub incr_mails : (k : Text) (w : W) → mails (services.incr k w).1 ≡ mails w
  pub post_mails :
      (url : Text) (step : SequenceStep) (r : SequenceRequest) (w : W)
      → mails (services.post_webhook url step r w).1 ≡ mails w

module _ {W : Type 0} (settings : Settings) (services : Services W) (request : SequenceRequest)
    (key : Text) (count : Text → W → ℕ) (mails : W → ℕ)
    (counts : CountsIn services request.tenant_id key count mails)
    (limited : 0 < settings.max_per_hour) where
  hour_checked :
      (w : W)
      → let m =
          over_limit settings services settings.max_per_hour
            (services.hour_key request.tenant_id)
            w in
        (count key w ≤ count key m.1)
        × (m.0 ≡ returned false
            → (count key w + 1 ≤ count key m.1) × (count key m.1 ≤ settings.max_per_hour))
  unfolding over_limit
  hour_checked w = rw (counts.hour w) (by_reply (services.incr key w).0 refl)
    where
      by_reply :
          (r : Reply ℕ Text)
          → (services.incr key w).0 ≡ r
          → let m =
              (if ltb 0 settings.max_per_hour
                then (services.incr key >>= λ n. pure (ltb settings.max_per_hour n)) w
                else (returned false, w)) in
            (count key w ≤ count key m.1)
            × (m.0 ≡ returned false
                → (count key w + 1 ≤ count key m.1) × (count key m.1 ≤ settings.max_per_hour))
      by_reply (returned n) e = ground (arith, limited, counts.added key w n, e, counts.grows key w)
      by_reply (raised x) e = ground (arith, limited, e, counts.grows key w)
      by_reply interrupted e = ground (arith, limited, e, counts.grows key w)

  day_checked :
      (w : W)
      → count key
          (over_limit settings services settings.max_new_threads
            (services.day_key request.tenant_id)
            w).1
        ≡ count key w
  unfolding over_limit
  day_checked w = elim (Bool-cases (ltb 0 settings.max_new_threads)) [
    | inl on ↦ rw on (by_reply (services.incr day w).0 refl)
    | inr off ↦ rw off
  ]
    where
      day : Text
      day = services.day_key request.tenant_id w

      by_reply :
          (r : Reply ℕ Text)
          → (services.incr day w).0 ≡ r
          → count key ((services.incr day >>= λ n. pure (ltb settings.max_new_threads n)) w).1
            ≡ count key w
      by_reply (returned n) e = ground (arith, e, counts.others day key w (counts.day w))
      by_reply (raised x) e = ground (arith, e, counts.others day key w (counts.day w))
      by_reply interrupted e = ground (arith, e, counts.others day key w (counts.day w))

  thread_checked :
      (w : W) → count key (thread_check settings services request.tenant_id w).1 ≡ count key w
  unfolding thread_check
  thread_checked w = ground (arith, day_checked w)

  throttle_checked :
      (new : Bool) (w : W)
      → let m = throttle_check settings services request.tenant_id new w in
        (count key w ≤ count key m.1)
        × (m.0 ≡ returned none
            → (count key w + 1 ≤ count key m.1) × (count key m.1 ≤ settings.max_per_hour))
  unfolding throttle_check limits
  throttle_checked new w =
      let w' =
        (over_limit settings services settings.max_per_hour (services.hour_key request.tenant_id)
          w).1 in
      ground (arith, counts.on, hour_checked w, thread_checked w')

  -- what may still be sent in the hour
  left : W → ℕ
  left w = settings.max_per_hour - count key w

  -- What is handed over between two worlds is no more than what was left is reduced by.
  abbrev Spent : W → W → Type 0
  Spent w w' = mails w' + left w' ≤ mails w + left w

  mails-over_limit :
      (limit : ℕ) (k : W → Text) (w : W)
      → mails (over_limit settings services limit k w).1 ≡ mails w
  unfolding over_limit
  mails-over_limit limit k w = by_reply (services.incr (k w) w).0 refl
    where
      by_reply :
          (r : Reply ℕ Text)
          → (services.incr (k w) w).0 ≡ r
          → mails
              (if ltb 0 limit
                then (services.incr (k w) >>= λ n. pure (ltb limit n)) w
                else (returned false, w)).1
            ≡ mails w
      by_reply (returned n) e = ground (arith, e, counts.incr_mails (k w) w)
      by_reply (raised x) e = ground (arith, e, counts.incr_mails (k w) w)
      by_reply interrupted e = ground (arith, e, counts.incr_mails (k w) w)

  throttle_mails :
      (new : Bool) (w : W)
      → mails (throttle_check settings services request.tenant_id new w).1 ≡ mails w
  unfolding throttle_check limits thread_check
  throttle_mails new w =
      let hour =
        over_limit settings services settings.max_per_hour (services.hour_key request.tenant_id) in
      ground (
        arith,
        mails-over_limit settings.max_per_hour (services.hour_key request.tenant_id) w,
        mails-over_limit settings.max_new_threads (services.day_key request.tenant_id) (hour w).1,
      )

  delivered :
      (step : SequenceStep) (w : W)
      → (count key (deliver_email settings services step w).1 ≡ count key w)
        × (mails (deliver_email settings services step w).1 ≤ mails w + 1)
  unfolding deliver_email
  delivered step w = ground (arith, counts.sends key step w, counts.one_mail step w)

  send_email_step-Spent :
      (step : SequenceStep) (w : W) → Spent w (send_email_step settings services request step w).1
  unfolding send_email_step left
  send_email_step-Spent step w =
      let new = is_new_thread step in
      let w' = (throttle_check settings services request.tenant_id new w).1 in
      ground (arith, throttle_checked new w, throttle_mails new w, delivered step w')

  run_step-Spent :
      (step : SequenceStep) (w : W) → Spent w (run_step settings services request step w).1
  unfolding run_step dispatch_webhook_step left
  run_step-Spent step w =
      let url = settings.webhook_url (lower step.channel) in
      ground (
        arith,
        send_email_step-Spent step w,
        counts.posts key url step request w,
        counts.post_mails url step request w,
      )

  bind-Spent :
      {A B : Type 0} (m : Action W A) (f : A → Action W B) (w : W)
      → Spent w (m w).1
      → ((a : A) (v : W) → Spent v (f a v).1)
      → Spent w ((m >>= f) w).1
  bind-Spent {A} {B} m f w first next = by_reply (m w).0 refl
    where
      by_reply : (r : Reply A Text) → (m w).0 ≡ r → Spent w ((m >>= f) w).1
      by_reply (returned a) e = ground (arith, e, first, next a (m w).1)
      by_reply (raised x) e = ground (arith, e, first)
      by_reply interrupted e = ground (arith, e, first)

  run_steps-Spent :
      (steps : List SequenceStep) (w : W) → Spent w (run_steps settings services request steps w).1
  unfolding run_steps
  run_steps-Spent [] w = omega arith
  run_steps-Spent (step ∷ steps) w =
      bind-Spent (run_step settings services request step)
        (λ d. run_steps settings services request steps >>= λ ds. pure (d ∷ ds)) w
        (run_step-Spent step w)
        (λ d v.
          bind-Spent (run_steps settings services request steps) (λ ds. pure (d ∷ ds)) v
            (run_steps-Spent steps v) (λ ds u. omega arith))

  attempt_sequence-Spent : (w : W) → Spent w (attempt_sequence settings services (some request) w).1
  unfolding attempt_sequence build_sequence
  attempt_sequence-Spent w =
      bind-Spent (run_steps settings services request request.steps) (λ ds. pure (summary ds)) w
        (run_steps-Spent request.steps w) (λ ds v. omega arith)

  module _ (h : ChannelSequencerAgentHarness) where
    rounds-Spent :
        (n attempt backoff : ℕ) (w : W)
        → Spent w
            (rounds h (attempt_sequence settings services (some request)) n attempt backoff w).world
    unfolding rounds
    rounds-Spent zero attempt backoff w = omega arith
    rounds-Spent (suc n) attempt backoff w =
        by_reply (body w).0 refl
          (rounds-Spent n (attempt + 1) (min (backoff * 2) h.max_backoff) (body w).1)
      where
        body : Action W SequenceResult
        body = attempt_sequence settings services (some request)

        by_reply :
            (r : Reply SequenceResult Text)
            → (body w).0 ≡ r
            → Spent
                (body w).1
                (rounds h body n (attempt + 1) (min (backoff * 2) h.max_backoff) (body w).1).world
            → Spent w (rounds h body (suc n) attempt backoff w).world
        by_reply (returned a) e rest = ground (arith, e, attempt_sequence-Spent w)
        by_reply (raised x) e rest = ground (arith, e, rest, attempt_sequence-Spent w)
        by_reply interrupted e rest = ground (arith, e, attempt_sequence-Spent w)

    -- With Redis there and a limit on the hour, within one hour: a run of the harness, with all its
    -- retries and however it ends, hands no more emails to the mail server than the limit exceeds the
    -- hour's counter before it, so none where the counter stands at the limit or above.
    pub all_mails_bounded :
        (w : W)
        → mails (execute settings services h (some request) w).world
          ≤ mails w + (settings.max_per_hour - count key w)
    unfolding execute left
    all_mails_bounded w =
        let spent = rounds-Spent (h.max_retries + 1) 0 h.initial_backoff w in omega (arith, spent)
