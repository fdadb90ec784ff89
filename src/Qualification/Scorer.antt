-- ===== src/Qualification/Scorer.antt =====
-- `QualificationScorer.score` and `score_lead_sync`. The language model is a function that the scorer
-- is given: from the lead, the messages, the classification and the score to what it answers, or
-- nothing where it fails or its answer is not read.
use enterprise_ai_sales_orch.Prelude.{
  Bool, true, false, not, Option, none, some, List, [], ◌∷◌, ◌++◌, if◌then◌else◌,
}
use enterprise_ai_sales_orch.Prelude.Int.{ℤ, pos, ◌+ℤ◌, min_ℤ, max_ℤ}
use enterprise_ai_sales_orch.Prelude.Text.{Text, codes, truthy}
use enterprise_ai_sales_orch.Qualification.Data.{
  QualificationConfig, Signal, signed, FastTrackReason, fast_tracked, by_llm, QualificationResult,
}
use enterprise_ai_sales_orch.Qualification.Input.{
  Lead, HistoryEntry, Message, Classification, normalize_lead_data, normalize_conversation_history,
  normalize_word,
}
use enterprise_ai_sales_orch.Qualification.Rules.{
  Tally, score_email_category, score_conversation, score_profile, score_engagement, score_negative,
}
use enterprise_ai_sales_orch.Qualification.Decision.{
  check_fast_track_rules, is_ambiguous, make_decision, build_reasoning,
}

-- what `_llm_evaluate` returns and `score` reads
pub record LlmAnswer : Type 0 where
  pub score_adjustment : ℤ
  pub reasoning : Text

abbrev pub Llm : Type 0
Llm = Lead → List Message → Classification → ℤ → Option LlmAnswer

-- the arguments of `score`; `none` stands for `None` or what is no dictionary or list
pub record Request : Type 0 where
  pub lead_data : Option Lead
  pub conversation_history : Option (List HistoryEntry)
  pub email_classification : Option Classification
  pub lead_source : Option Text
  pub email_direction : Option Text

abbrev pub no_classification : Classification
no_classification = record { category = none; confidence = none }

classification_of : Option Classification → Classification
classification_of none = no_classification
classification_of (some c) = c

-- `max(0, min(100, z))`
unfoldable pub clamp : ℤ → ℤ
clamp z = max_ℤ (pos 0) (min_ℤ (pos 100) z)

-- the input as the first lines of `score` leave it
pub record Normalized : Type 0 where
  pub lead : Lead
  pub messages : List Message
  pub classification : Classification
  pub source : Text
  pub direction : Text

unfoldable pub normalize : Request → Normalized
unfolding normalize_lead_data normalize_conversation_history classification_of normalize_word
normalize r = record {
  lead = normalize_lead_data r.lead_data;
  messages = normalize_conversation_history r.conversation_history;
  classification = classification_of r.email_classification;
  source = normalize_word (codes "new") r.lead_source;
  direction = normalize_word (codes "inbound") r.email_direction;
}

-- steps 1 to 5: the sum of the groups, before it is clamped
unfoldable pub rule_tally : QualificationConfig → Normalized → Tally
rule_tally cfg n =
    let category = score_email_category cfg n.classification in
    let conversation = score_conversation cfg n.messages n.source in
    let profile = score_profile cfg n.lead in
    let engagement = score_engagement cfg n.source n.direction in
    let negative = score_negative cfg n.messages in
    record {
      score =
          pos 0
          +ℤ category.score
          +ℤ conversation.score
          +ℤ profile.score
          +ℤ engagement.score
          +ℤ negative.score;
      signals =
          category.signals
          ++ (conversation.signals
              ++ (profile.signals ++ (engagement.signals ++ negative.signals)));
    }

-- `_llm_evaluate`, as far as the model is not asked when it is not enabled
unfoldable pub llm_evaluate : QualificationConfig → Llm → Normalized → ℤ → Option LlmAnswer
llm_evaluate cfg llm n score =
    if not cfg.llm_fallback.enabled then none else llm n.lead n.messages n.classification score

-- step 7: the answer, if the model is asked and answers
unfoldable pub llm_answer :
    QualificationConfig → Llm → Normalized → ℤ → Option FastTrackReason → Option LlmAnswer
unfolding is_ambiguous llm_evaluate
llm_answer cfg llm n score (some reason) = none
llm_answer cfg llm n score none =
    if is_ambiguous cfg score then llm_evaluate cfg llm n score else none

abbrev is_some : {A : Type 0} → Option A → Bool
is_some none = false
is_some (some _) = true

-- step 8 and the result, after an answer of the model or none
unfoldable pub conclude :
    QualificationConfig
    → ℤ
    → List Signal
    → Option FastTrackReason
    → Option LlmAnswer
    → QualificationResult
unfolding make_decision build_reasoning clamp
conclude cfg score signals reason none =
    let (decision, promote) = make_decision cfg score (is_some reason) in
    record {
      score = score;
      decision = decision;
      promote = promote;
      fast_track = is_some reason;
      signals = signals;
      reasoning = elim reason [ some r ↦ fast_tracked r | none ↦ build_reasoning signals decision ];
      llm_used = false;
      llm_adjustment = pos 0;
      confidence = 100;
    }
conclude cfg score signals reason (some answer) =
    let adjusted = clamp (score +ℤ answer.score_adjustment) in
    let signals' =
      signals
      ++ record {
        name = codes "llm_adjustment";
        details = [];
        format = signed;
        points = answer.score_adjustment;
      }
        ∷ [] in
    let (decision, promote) = make_decision cfg adjusted (is_some reason) in
    record {
      score = adjusted;
      decision = decision;
      promote = promote;
      fast_track = is_some reason;
      signals = signals';
      reasoning = elim reason [
        | some r ↦ fast_tracked r
        | none ↦
            if truthy answer.reasoning
            then by_llm answer.reasoning
            else build_reasoning signals' decision
      ];
      llm_used = true;
      llm_adjustment = answer.score_adjustment;
      confidence = 80;
    }

unfoldable pub score : QualificationConfig → Llm → Request → QualificationResult
score cfg llm r =
    let n = normalize r in
    let t = rule_tally cfg n in
    let total = clamp t.score in
    let reason = check_fast_track_rules cfg n.source n.direction total t.signals in
    conclude cfg total t.signals reason (llm_answer cfg llm n total reason)

unfoldable pub score_lead_sync : QualificationConfig → Llm → Request → QualificationResult
unfolding score
score_lead_sync cfg llm r =
    score (record cfg { llm_fallback = record cfg.llm_fallback { enabled = false } }) llm r
