-- ===== src/Sequencer/Agent.antt =====
-- tiers/tier_3/channel_sequencer_agent/channel_sequencer_agent.py: `build_sequence` and the two ways to
-- send a step.
use enterprise_ai_sales_orch.Prelude.{
  ◌+◌, ◌*◌, ltb, Bool, true, false, ◌&&◌, ◌||◌, not, Option, none, some, List, [], ◌∷◌, any,
  if◌then◌else◌,
}
use enterprise_ai_sales_orch.Prelude.Text.{
  Text, codes, lower, text_eq, truthy, listed, or_empty, or_text,
}
use enterprise_ai_sales_orch.Harness.Retry.{returned, raised, interrupted}
use enterprise_ai_sales_orch.Sequencer.{
  get, is_true, SequenceStep, SequenceRequest, SequenceResult, Status, scheduled, blocked,
  throttled, draft, sent, skipped, error, delayed, approval_required, webhook_missing, Delivery,
  Settings, Services, accepted, refused, Action, ◌>>=◌, pure,
}
use enterprise_ai_sales_orch.Sequencer.Guards.{
  thread_check, over_limit, limits, hard_stop_reason, throttle_check,
}

-- an entry with no more than its channel and status
abbrev pub entry : Text → Status → Delivery
entry channel status = record {
  channel = channel;
  status = status;
  reason = none;
  error_text = none;
  message_id = none;
  scheduled_for = none;
}

abbrev email : Text
email = codes "email"

-- a missing text counts as an empty one
has_text : Option Text → Bool
has_text o = truthy (or_empty o)

unfoldable pub is_complete : SequenceStep → Bool
unfolding has_text
is_complete step = has_text step.to_email && has_text step.subject && has_text step.body

unfoldable pub is_email : SequenceStep → Bool
is_email step = text_eq (lower step.channel) email

unfoldable pub is_new_thread : SequenceStep → Bool
unfolding get is_true
is_new_thread step = not (
    is_true (get (codes "thread_id") step.metadata)
    || is_true (get (codes "conversation_id") step.metadata))

unfoldable pub needs_approval : Settings → Bool
needs_approval settings =
    listed (lower settings.approval_mode) (codes "1" ∷ codes "true" ∷ codes "yes" ∷ [])

unfoldable pub has_status : Status → Delivery → Bool
has_status sent d = elim d.status [ sent ↦ true | _ ↦ false ]
has_status error d = elim d.status [ error ↦ true | _ ↦ false ]
has_status _ d = false

channels_of : List Delivery → List Text
unfolding has_status
channels_of [] = []
channels_of (d ∷ ds) = if has_status sent d then d.channel ∷ channels_of ds else channels_of ds

first_error : List Delivery → Option Text
unfolding has_status
first_error [] = none
first_error (d ∷ ds) =
    if has_status error d
    then some (or_text (or_empty d.error_text) (codes "channel_sequencer_error"))
    else first_error ds

any_error : List Delivery → Bool
unfolding has_status
any_error ds = any (has_status error) ds

-- the result of a sequence, from its deliveries
unfoldable pub summary : List Delivery → SequenceResult
unfolding channels_of first_error any_error
summary ds = record {
  status = if any_error ds then error else if any (has_status sent) ds then sent else scheduled;
  dispatched_channels = channels_of ds;
  deliveries = ds;
  error_text = if any_error ds then first_error ds else none;
}

module _ {W : Type 0} (settings : Settings) (services : Services W) where
  -- the `try` around the mail server
  unfoldable pub deliver_email : SequenceStep → Action W Delivery
  deliver_email step w =
      let (r, w') = services.send_email step w in
      elim r [
        | returned id ↦ (returned (record (entry email sent) { message_id = some id }), w')
        | raised e ↦ (returned (record (entry email error) { error_text = some e }), w')
        | interrupted ↦ (interrupted, w')
      ]

  unfoldable pub send_email_step : SequenceRequest → SequenceStep → Action W Delivery
  send_email_step request step w =
      if not (is_complete step)
      then (raised (codes "Email step requires to_email, subject, and body"), w)
      else elim (hard_stop_reason settings step request) [
        | some reason ↦ (returned (record (entry email blocked) { reason = some reason }), w)
        | none ↦
            (throttle_check settings services request.tenant_id (is_new_thread step) >>= λ throttle.
            elim throttle [
              | some reason ↦ pure (record (entry email throttled) { reason = some reason })
              | none ↦
                  if needs_approval settings
                  then pure (record (entry email draft) { reason = some approval_required })
                  else deliver_email step
            ])
              w
      ]

  unfoldable pub dispatch_webhook_step : SequenceRequest → SequenceStep → Action W Delivery
  dispatch_webhook_step request step w =
      let url = settings.webhook_url (lower step.channel) in
      let (r, w') = services.post_webhook url step request w in
      if truthy url
      then elim r [
        | returned accepted ↦ (returned (entry step.channel sent), w')
        | returned (refused e) ↦ (
          returned (record (entry step.channel error) {
            error_text = some (or_text (or_empty e) (codes "channel_webhook_failed"));
          }),
          w',
        )
        | raised e ↦ (returned (record (entry step.channel error) { error_text = some e }), w')
        | interrupted ↦ (interrupted, w')
      ]
      else (returned (record (entry step.channel skipped) { reason = some webhook_missing }), w)

  -- the body of the loop of `build_sequence`; times are in seconds
  unfoldable pub run_step : SequenceRequest → SequenceStep → Action W Delivery
  run_step request step w =
      if ltb 0 step.delay_minutes
      then (
        returned (record (entry step.channel scheduled) {
          reason = some delayed;
          scheduled_for = some (services.now w + step.delay_minutes * 60);
        }),
        w,
      )
      else if is_email step
      then send_email_step request step w
      else dispatch_webhook_step request step w

  unfoldable pub run_steps : SequenceRequest → List SequenceStep → Action W (List Delivery)
  run_steps request [] = pure []
  run_steps request (step ∷ steps) =
      run_step request step >>= λ d. run_steps request steps >>= λ ds. pure (d ∷ ds)

  -- `build_sequence`; `none` is a payload that is no request
  unfoldable pub build_sequence : Option SequenceRequest → Action W SequenceResult
  unfolding run_steps summary
  build_sequence none w = (raised (codes "validation error"), w)
  build_sequence (some request) w = (run_steps request request.steps >>= λ ds. pure (summary ds)) w

-- Names all that a run of a sequence computes with.
unfoldable pub sequencing : Unit {0}
unfolding build_sequence run_steps run_step is_email send_email_step is_complete hard_stop_reason
    throttle_check limits over_limit is_new_thread thread_check needs_approval deliver_email
    dispatch_webhook_step
sequencing = tt
