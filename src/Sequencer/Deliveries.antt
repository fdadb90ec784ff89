-- ===== src/Sequencer/Deliveries.antt =====
-- What each entry of `deliveries` says of its step.
use enterprise_ai_sales_orch.Prelude.{
  sym, any, refl, ◌<◌, ◌≡◌, ◌≢◌, ◌↔◌, ◌⊎◌, true, false, none, some, List, [], ◌∷◌, any, arith,
}
use enterprise_ai_sales_orch.Prelude.Text.{Text}
use enterprise_ai_sales_orch.Harness.Retry.{Reply, returned, raised, interrupted}
use enterprise_ai_sales_orch.Sequencer.{
  SequenceStep, SequenceRequest, SequenceResult, scheduled, blocked, sent, error, Delivery,
  Settings, Services, Action, ◌>>=◌, pure,
}
use enterprise_ai_sales_orch.Sequencer.Guards.{hard_stop_reason, throttle_check}
use enterprise_ai_sales_orch.Sequencer.Agent.{
  has_status, is_complete, is_email, is_new_thread, needs_approval, deliver_email, send_email_step,
  dispatch_webhook_step, run_step, run_steps, build_sequence, summary,
}

summary-error :
    (ds : List Delivery) → ((summary ds).status ≡ error) ↔ (any (has_status error) ds ≡ true)
unfolding summary
summary-error ds = ground arith

-- What an action that returns has done.
pub bind_inv :
    {W A B : Type 0} (m : Action W A) (f : A → Action W B) (w : W) (b : B)
    → ((m >>= f) w).0 ≡ returned b
    → (a : A) × ((m w).0 ≡ returned a) × ((f a (m w).1).0 ≡ returned b)
bind_inv {W} {A} {B} m f w b h = cases (m w).0 refl h
  where
    cases :
        (r : Reply A Text)
        → (m w).0 ≡ r
        → ((m >>= f) w).0 ≡ returned b
        → (a : A) × ((m w).0 ≡ returned a) × ((f a (m w).1).0 ≡ returned b)
    cases (returned a) e h = (a, e, ground arith)
    cases (raised x) e h = ground arith
    cases interrupted e h = ground arith

module _ (settings : Settings) (request : SequenceRequest) where
  -- A step that is mailed now: it may be sent only if nothing stops it; what stops it blocks it, and
  -- what asks for an approval leaves a draft at most.
  pub record MailedRightly (step : SequenceStep) (d : Delivery) : Type 0 where
    pub complete : is_complete step ≡ true
    pub free : d.status ≡ sent → hard_stop_reason settings step request ≡ none
    pub approved : d.status ≡ sent → needs_approval settings ≡ false
    pub stopped : (d.status ≡ blocked) ↔ (hard_stop_reason settings step request ≢ none)
    pub named : d.status ≡ blocked → d.reason ≡ hard_stop_reason settings step request

  pub record IsJustified (step : SequenceStep) (d : Delivery) : Type 0 where
    pub later : (d.status ≡ scheduled) ↔ (0 < step.delay_minutes)
    pub mailed : step.delay_minutes ≡ 0 → is_email step ≡ true → MailedRightly step d

  module _ {W : Type 0} (services : Services W) where
    deliver_email_lem :
        (step : SequenceStep) (w : W) (d : Delivery)
        → (deliver_email settings services step w).0 ≡ returned d
        → (d.status ≡ sent) ⊎ (d.status ≡ error)
    unfolding deliver_email
    deliver_email_lem step w d h = ground arith

    abbrev after_guards : SequenceStep → W → W
    after_guards step w =
        (throttle_check settings services request.tenant_id (is_new_thread step) w).1

    send_email_step-MailedRightly :
        (step : SequenceStep) (w : W) (d : Delivery)
        → (send_email_step settings services request step w).0 ≡ returned d
        → MailedRightly step d
    unfolding send_email_step
    send_email_step-MailedRightly step w d h =
        let sent_lem = deliver_email_lem step (after_guards step w) d in
        record {
          complete = ground arith;
          free = ground (arith, sent_lem);
          approved = ground arith;
          stopped = ground (arith, sent_lem);
          named = ground (arith, sent_lem);
        }

    send_email_step-not_scheduled :
        (step : SequenceStep) (w : W) (d : Delivery)
        → (send_email_step settings services request step w).0 ≡ returned d
        → d.status ≢ scheduled
    unfolding send_email_step
    send_email_step-not_scheduled step w d h =
        let sent_lem = deliver_email_lem step (after_guards step w) d in ground (arith, sent_lem)

    dispatch_webhook_step-not_scheduled :
        (step : SequenceStep) (w : W) (d : Delivery)
        → (dispatch_webhook_step settings services request step w).0 ≡ returned d
        → d.status ≢ scheduled
    unfolding dispatch_webhook_step
    dispatch_webhook_step-not_scheduled step w d h = ground arith

    run_step-IsJustified :
        (step : SequenceStep) (w : W) (d : Delivery)
        → (run_step settings services request step w).0 ≡ returned d
        → IsJustified step d
    unfolding run_step
    run_step-IsJustified step w d h = record {
      later = ground (
        arith,
        send_email_step-not_scheduled step w d,
        dispatch_webhook_step-not_scheduled step w d,
      );
      mailed = λ now by_mail. send_email_step-MailedRightly step w d (ground arith);
    }

  -- the entries justify the steps one by one
  abbrev pub AllJustified : List SequenceStep → List Delivery → Type 0
  AllJustified [] [] = Unit {0}
  AllJustified (step ∷ steps) (d ∷ ds) = IsJustified step d × AllJustified steps ds
  AllJustified _ _ = ⊥

  module _ {W : Type 0} (services : Services W) where
    run_steps-AllJustified :
        (steps : List SequenceStep) (w : W) (ds : List Delivery)
        → (run_steps settings services request steps w).0 ≡ returned ds
        → AllJustified steps ds
    unfolding run_steps
    run_steps-AllJustified [] w [] h = tt
    run_steps-AllJustified [] w (d ∷ ds) h = ground arith
    run_steps-AllJustified (step ∷ steps) w ds h =
        let (d, at_step, later) =
          bind_inv (run_step settings services request step)
            (λ d. run_steps settings services request steps >>= λ ds. pure (d ∷ ds)) w ds h in
        let w' = (run_step settings services request step w).1 in
        let (ds', at_steps, end) =
          bind_inv (run_steps settings services request steps) (λ ds. pure (d ∷ ds)) w' ds later in
        let all : AllJustified (step ∷ steps) (d ∷ ds') = (
          run_step-IsJustified services step w d at_step,
          run_steps-AllJustified steps w' ds' at_steps,
        ) in
        let same : ds ≡ d ∷ ds' = cc in rw same all

    -- Whatever the services answer: if the agent returns a result, then its deliveries belong to the
    -- steps one by one. A step is scheduled exactly when it has a delay. An email that is due is
    -- complete; it is blocked exactly when something stops it, with that reason; and it is sent only
    -- if nothing stops it and no approval is asked for. The status is an error exactly when a delivery
    -- is one.
    pub build_sequence-AllJustified :
        (w : W) (r : SequenceResult)
        → (build_sequence settings services (some request) w).0 ≡ returned r
        → AllJustified request.steps r.deliveries
          × ((r.status ≡ error) ↔ (any (has_status error) r.deliveries ≡ true))
    unfolding build_sequence summary
    build_sequence-AllJustified w r h =
        let (ds, at_steps, end) =
          bind_inv (run_steps settings services request request.steps) (λ ds. pure (summary ds)) w r
            h in
        let same : summary ds ≡ r = cc in
        rw (sym same) (run_steps-AllJustified request.steps w ds at_steps, summary-error ds)
