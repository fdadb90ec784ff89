-- ===== src/Sequencer/Tests.antt =====
-- Runs of a sequence of two steps over services that count: counters by their keys, and mails.
use enterprise_ai_sales_orch.Prelude.{
  false, ◌-◌, ℕ, ◌+◌, ◌≤◌, ◌≡◌, ◌↔◌, any, true, none, some, [], ◌∷◌, refl, arith, if◌then◌else◌,
}
use enterprise_ai_sales_orch.Prelude.Text.{Text, codes, text_eq, text_eq_refl, text_eq-eq}
use enterprise_ai_sales_orch.Harness.Retry.{returned}
use enterprise_ai_sales_orch.Sequencer.{
  text, SequenceStep, SequenceRequest, SequenceResult, Settings, Services, refused, sent, error,
}
use enterprise_ai_sales_orch.Sequencer.Agent.{
  sequencing, entry, run_steps, build_sequence, has_status,
}
use enterprise_ai_sales_orch.Sequencer.Harness.{
  rounds, ChannelSequencerAgentHarness, attempt_sequence, execute,
}
use enterprise_ai_sales_orch.Sequencer.Deliveries.{AllJustified, build_sequence-AllJustified}
use enterprise_ai_sales_orch.Sequencer.Throttle.{CountsIn, all_mails_bounded}
use enterprise_ai_sales_orch.Sequencer.Retries.{Kept, execute-Kept}

abbrev World : Type 0
World = (Text → ℕ) × ℕ

abbrev add_to : Text → (Text → ℕ) → Text → ℕ
add_to k f j = if text_eq k j then f j + 1 else f j

abbrev services : Services World
services = record {
  has_redis = true;
  hour_key = λ _ _. codes "hour";
  day_key = λ _ _. codes "day";
  incr = λ k w. (returned (w.0 k + 1), (add_to k w.0, w.1));
  now = λ _. 0;
  send_email = λ _ w. (returned (codes "id"), (w.0, w.1 + 1));
  post_webhook = λ _ _ _ w. (returned (refused none), w);
}

abbrev settings : Settings
settings = record {
  hard_stop_keywords = codes "unsubscribe, stop";
  max_per_hour = 2;
  max_new_threads = 0;
  approval_mode = codes "0";
  webhook_url = λ _. codes "https://x";
}

abbrev mail : SequenceStep
mail = record {
  channel = codes "Email";
  to_email = some (codes "a@b");
  subject = some (codes "hi");
  body = some (codes "text");
  from_email = none;
  template_id = none;
  delay_minutes = 0;
  metadata = [];
}

abbrev hook : SequenceStep
hook = record mail { channel = codes "sms" }

abbrev request : SequenceRequest
request = record { tenant_id = codes "t"; lead_id = none; steps = mail ∷ hook ∷ []; context = [] }

abbrev start : World
start = (λ _. 0, 0)

abbrev mails : World → ℕ
mails w = w.1

abbrev retrying : ChannelSequencerAgentHarness
retrying = record { max_retries = 3; initial_backoff = 1; max_backoff = 30 }

services-CountsIn : CountsIn services (codes "t") (codes "hour") (λ k w. w.0 k) mails
services-CountsIn = record {
  on = refl;
  hour = λ w. refl;
  day = λ w. ground arith;
  added = λ k w n e. (ground (arith, text_eq_refl k, e), ground (arith, text_eq_refl k, e));
  grows = λ k w. ground (arith, text_eq_refl k);
  others = λ j k w ne. ground (arith, text_eq-eq j k);
  sends = λ k step w. refl;
  posts = λ k url step r w. refl;
  one_mail = λ step w. omega arith;
  incr_mails = λ k w. refl;
  post_mails = λ url step r w. refl;
}

abbrev outcome : SequenceResult
outcome = record {
  status = error;
  dispatched_channels = codes "email" ∷ [];
  deliveries =
      record (entry (codes "email") sent) { message_id = some (codes "id") }
      ∷ record (entry (codes "sms") error) { error_text = some (codes "channel_webhook_failed") }
      ∷ [];
  error_text = some (codes "channel_webhook_failed");
}

built : (build_sequence settings services (some request) start).0 ≡ returned outcome
unfolding sequencing
built = refl

-- the text that stops an email, in the last message of the lead
stopped :
    (build_sequence settings services
      (some (record request {
        context = (codes "last_inbound_snippet", text (codes "Please STOP this")) ∷ [];
      }))
      start).1
    ≡ start
unfolding sequencing
stopped = refl

limit_holds : (run_steps settings services request (mail ∷ mail ∷ mail ∷ []) start).1.1 ≡ 2
unfolding sequencing
limit_holds = refl

build_sequence-AllJustified_example :
    AllJustified settings request request.steps outcome.deliveries
    × ((outcome.status ≡ error) ↔ (any (has_status error) outcome.deliveries ≡ true))
build_sequence-AllJustified_example =
    build_sequence-AllJustified settings request services start outcome built

-- four rounds, of which two still send the email
all_mails_bounded_example :
    mails (execute settings services retrying (some request) start).world ≤ 0 + (2 - 0)
all_mails_bounded_example =
    all_mails_bounded settings services request (codes "hour") (λ k w. w.0 k) mails
      services-CountsIn (omega arith) retrying start

two_sent : mails (execute settings services retrying (some request) start).world ≡ 2
unfolding execute rounds attempt_sequence sequencing
two_sent = refl

execute-Kept_example : Kept retrying (execute settings services retrying (some request) start)
execute-Kept_example = execute-Kept settings services retrying (some request) start

-- a sequence of two emails and a third one without a subject, over services without Redis
abbrev no_redis : Services World
no_redis = record services { has_redis = false }

abbrev broken : SequenceStep
broken = record mail { subject = none }

abbrev ends_broken : SequenceRequest
ends_broken = record request { steps = mail ∷ mail ∷ broken ∷ [] }
