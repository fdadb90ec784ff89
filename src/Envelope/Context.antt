-- ===== src/Envelope/Context.antt =====
-- What answers carry over from the envelope that they answer.
use enterprise_ai_sales_orch.Prelude.{
  ℕ, suc, List, [], ◌∷◌, ◌+◌, ◌≤◌, ◌≡◌, ◌↔◌, All, refl, arith, Option, ◌∙◌,
}
use enterprise_ai_sales_orch.Prelude.Text.{Text}
use enterprise_ai_sales_orch.Envelope.{Envelope, dlq, normal, result_of, error_of}
use enterprise_ai_sales_orch.Envelope.Retries.{retried, retried-IsRetried}

-- an answer of a worker: a result or an error, with its new identifier, time and source
pub data Answer (P : Type 0) : Type 0 where
  replied : Text → ℕ → P → Text → Answer P
  failed : Text → ℕ → Text → Text → Option Text → Answer P

abbrev pub IsFailed : {P : Type 0} → Answer P → Type 0
IsFailed (replied m now p s) = ⊥
IsFailed (failed m now t s c) = Unit {0}

module _ {P D : Type 0} where
  unfoldable pub answer : Answer P → Envelope P D → Envelope P D
  answer (replied message_id now payload source) e = result_of message_id now payload source e
  answer (failed message_id now message source code) e =
      error_of message_id now message source code e

  -- Each answers the envelope before.
  unfoldable pub pipeline : List (Answer P) → Envelope P D → Envelope P D
  pipeline [] e = e
  pipeline (a ∷ answers) e = pipeline answers (answer a e)

  pub record SameContext (e e' : Envelope P D) : Type 0 where
    pub task_id : e'.metadata.task_id ≡ e.metadata.task_id
    pub correlation_id : e'.metadata.correlation_id ≡ e.metadata.correlation_id
    pub req_id : e'.metadata.req_id ≡ e.metadata.req_id
    pub user_id : e'.metadata.user_id ≡ e.metadata.user_id
    pub tenant_id : e'.metadata.tenant_id ≡ e.metadata.tenant_id
    pub campaign_id : e'.metadata.campaign_id ≡ e.metadata.campaign_id
    pub tags : e'.metadata.tags ≡ e.metadata.tags
    pub debug : e'.metadata.debug ≡ e.metadata.debug

  answer-SameContext : (a : Answer P) (e : Envelope P D) → SameContext e (answer a e)
  unfolding answer result_of error_of
  answer-SameContext (replied m now p s) e = record {
    task_id = refl;
    correlation_id = refl;
    req_id = refl;
    user_id = refl;
    tenant_id = refl;
    campaign_id = refl;
    tags = refl;
    debug = refl;
  }
  answer-SameContext (failed m now t s c) e = record {
    task_id = refl;
    correlation_id = refl;
    req_id = refl;
    user_id = refl;
    tenant_id = refl;
    campaign_id = refl;
    tags = refl;
    debug = refl;
  }

  -- However many workers answer one another, with results or errors, the last envelope has the task,
  -- the correlation, the request, the user, the tenant, the campaign, the tags and the debug entry of
  -- the first.
  pub pipeline-SameContext :
      (answers : List (Answer P)) (e : Envelope P D) → SameContext e (pipeline answers e)
  unfolding pipeline
  pipeline-SameContext [] e = record {
    task_id = refl;
    correlation_id = refl;
    req_id = refl;
    user_id = refl;
    tenant_id = refl;
    campaign_id = refl;
    tags = refl;
    debug = refl;
  }
  pipeline-SameContext (a ∷ answers) e =
      let r = pipeline-SameContext answers (answer a e) in
      let s = answer-SameContext a e in
      record {
        task_id = r.task_id ∙ s.task_id;
        correlation_id = r.correlation_id ∙ s.correlation_id;
        req_id = r.req_id ∙ s.req_id;
        user_id = r.user_id ∙ s.user_id;
        tenant_id = r.tenant_id ∙ s.tenant_id;
        campaign_id = r.campaign_id ∙ s.campaign_id;
        tags = r.tags ∙ s.tags;
        debug = r.debug ∙ s.debug;
      }

  -- Whatever the priority of an envelope was, the last of one or more answers has the normal one.
  pipeline-priority :
      (a : Answer P) (answers : List (Answer P)) (e : Envelope P D)
      → (pipeline (a ∷ answers) e).metadata.priority ≡ normal
  unfolding pipeline answer result_of error_of
  pipeline-priority (replied m now p s) [] e = refl
  pipeline-priority (failed m now t s c) [] e = refl
  pipeline-priority a (b ∷ answers) e = pipeline-priority b answers (answer a e)

  failures_budget :
      (answers : List (Answer P)) (e : Envelope P D)
      → All IsFailed answers
      → ((pipeline answers e).metadata.retry_count ≡ e.metadata.retry_count)
        × ((pipeline answers e).metadata.max_retries ≡ e.metadata.max_retries)
        × ((pipeline answers e).payload ≡ e.payload)
  unfolding pipeline answer error_of
  failures_budget [] e f = (refl, refl, refl)
  failures_budget (failed m now t s c ∷ answers) e f =
      failures_budget answers (answer (failed m now t s c) e) f.1
  failures_budget (replied m now p s ∷ answers) e f = elim f.0 [ ]

  -- Errors, however many answer one another, keep the payload and use the retries up as the first
  -- envelope would: after any positive number of retries the last is a dead letter exactly when the
  -- first one's count and that number reach the first one's maximum.
  failures-retried :
      (answers : List (Answer P)) (e : Envelope P D) (n : ℕ)
      → All IsFailed answers
      → ((pipeline answers e).payload ≡ e.payload)
        × (((retried (suc n) (pipeline answers e)).status ≡ dlq)
            ↔ (e.metadata.max_retries ≤ e.metadata.retry_count + suc n))
  failures-retried answers e n f =
      let (c, m, p) = failures_budget answers e f in
      (p, ground (arith, c, m, (retried-IsRetried n (pipeline answers e)).dead))
