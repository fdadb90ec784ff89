-- ===== src/Envelope/Tests.antt =====
-- Runs of the envelopes at concrete messages, with numbers for the payloads.
use enterprise_ai_sales_orch.Prelude.{ℕ, ◌≡◌, none, some, [], ◌∷◌, refl}
use enterprise_ai_sales_orch.Prelude.Text.{codes}
use enterprise_ai_sales_orch.Envelope.{Envelope, LegacyEnvelope, high, dlq, task, increment_retry}
use enterprise_ai_sales_orch.Envelope.Retries.{retried, IsRetried, retried-IsRetried}
use enterprise_ai_sales_orch.Envelope.Context.{
  Answer, replied, failed, pipeline, SameContext, pipeline-SameContext,
}

abbrev first : Envelope ℕ ℕ
unfolding task
first = task (codes "m1") 5 (codes "c1") (codes "manager") (codes "t1") 7 none high none

abbrev trouble : Answer ℕ
trouble = failed (codes "m2") 6 (codes "no lead") (codes "rag") none

abbrev good : Answer ℕ
good = replied (codes "m3") 8 9 (codes "copywriter")

abbrev old : LegacyEnvelope ℕ ℕ
old = record {
  meta_task_id = none;
  task_id = some (codes "t9");
  meta_source = none;
  target = none;
  correlation_id = none;
  req_id = none;
  request_id = some (codes "r9");
  tenant_id = none;
  campaign_id = none;
  status = some (codes "Failed");
  error_text = some (codes "no lead");
  legacy_payload = 7;
  legacy_debug = 0;
}

third_retry : (retried 3 first).status ≡ dlq
unfolding retried increment_retry first
third_retry = refl

retried-IsRetried_example : IsRetried 3 first (retried 3 first)
retried-IsRetried_example = retried-IsRetried 2 first

pipeline-SameContext_example : SameContext first (pipeline (trouble ∷ good ∷ []) first)
pipeline-SameContext_example = pipeline-SameContext (trouble ∷ good ∷ []) first
