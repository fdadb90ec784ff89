-- ===== src/Qualification/Outcomes.antt =====
-- What holds of every result of the scorer.
use enterprise_ai_sales_orch.Prelude.{
  ℕ, ◌≡◌, ◌≢◌, ◌≤◌, Bool, true, false, Option, none, some, List, arith, refl, ◌⊎◌, ◌↔◌,
}
use enterprise_ai_sales_orch.Prelude.Int.{+ℤ_parts, ℤ, pos, ◌+ℤ◌, ◌≤ℤ◌}
use enterprise_ai_sales_orch.Qualification.Data.{
  get_or, QualificationConfig, QualificationResult, Signal, FastTrackReason, qualified, nurture,
  disqualified, fast_track, Decision,
}
use enterprise_ai_sales_orch.Qualification.Decision.{make_decision, check_fast_track_rules}
use enterprise_ai_sales_orch.Qualification.Scorer.{
  Llm, LlmAnswer, Request, Normalized, normalize, rule_tally, clamp, conclude, llm_answer, score,
  score_lead_sync,
}

clamp_bounds : (z : ℤ) → (pos 0 ≤ℤ clamp z) × (clamp z ≤ℤ pos 100)
unfolding clamp
clamp_bounds z = ground arith

-- What the fields of a result say of each other.
pub record IsCoherent (cfg : QualificationConfig) (r : QualificationResult) : Type 0 where
  pub low : pos 0 ≤ℤ r.score
  pub high : r.score ≤ℤ pos 100
  pub promoted : (r.promote ≡ true) ↔ ((r.decision ≡ qualified) ⊎ (r.decision ≡ fast_track))
  pub tracked : (r.fast_track ≡ true) ↔ (r.decision ≡ fast_track)
  pub reached :
      (r.decision ≡ qualified)
      ↔ ((r.fast_track ≡ false) × (get_or cfg.thresholds.auto_promote (pos 70) ≤ℤ r.score))
  pub sunk : (r.decision ≡ disqualified) ↔ (
      (r.fast_track ≡ false)
      × (¬ (get_or cfg.thresholds.auto_promote (pos 70) ≤ℤ r.score))
      × (r.score ≤ℤ get_or cfg.thresholds.disqualify (pos 20)))

conclude-IsCoherent :
    (cfg : QualificationConfig) (total : ℤ) (signals : List Signal)
    (reason : Option FastTrackReason) (answer : Option LlmAnswer)
    → (pos 0 ≤ℤ total) × (total ≤ℤ pos 100)
    → IsCoherent cfg (conclude cfg total signals reason answer)
unfolding conclude
conclude-IsCoherent cfg total signals reason none h = record {
  low = h.0;
  high = h.1;
  promoted = ground arith;
  tracked = ground arith;
  reached = ground arith;
  sunk = ground arith;
}
conclude-IsCoherent cfg total signals reason (some a) h =
    let (lo, hi) = clamp_bounds (total +ℤ a.score_adjustment) in
    record {
      low = lo;
      high = hi;
      promoted = ground arith;
      tracked = ground arith;
      reached = ground arith;
      sunk = ground arith;
    }

-- For every configuration, model and input, the score lies between 0 and 100; a lead is promoted
-- exactly when it is qualified or fast-tracked; it is decided as fast-tracked exactly when the flag is
-- set; as qualified exactly when the flag is not set and the final score reaches the threshold for
-- promotion; and as disqualified exactly when the flag is not set and the final score lies below that
-- threshold and not above the one for disqualification.
pub score-IsCoherent :
    (cfg : QualificationConfig) (llm : Llm) (r : Request) → IsCoherent cfg (score cfg llm r)
unfolding score
score-IsCoherent cfg llm r = conclude-IsCoherent cfg _ _ _ _ (clamp_bounds _)

-- A higher score never leads to a worse decision.
unfoldable pub rank : Decision → ℕ
rank disqualified = 0
rank nurture = 1
rank qualified = 2
rank fast_track = 3

-- Under any thresholds, and with the same fast-track flag, a higher score never leads to a worse
-- decision, from disqualified over nurture and qualified to fast-tracked.
make_decision_mono :
    (cfg : QualificationConfig) (s s' : ℤ) (tracked : Bool)
    → s ≤ℤ s'
    → rank (make_decision cfg s tracked).0 ≤ rank (make_decision cfg s' tracked).0
unfolding make_decision rank
make_decision_mono cfg s s' tracked h = ground arith

-- When the model is asked: it is enabled, no rule and no threshold fast-tracks the lead, and the
-- score of the rules lies in the ambiguous range.
pub record MayAsk (cfg : QualificationConfig) (n : Normalized) : Type 0 where
  pub enabled : cfg.llm_fallback.enabled ≡ true
  pub untracked :
      check_fast_track_rules cfg n.source n.direction
        (clamp (rule_tally cfg n).score)
        (rule_tally cfg n).signals
      ≡ none
  pub above : get_or cfg.llm_fallback.ambiguous_min (pos 40) ≤ℤ clamp (rule_tally cfg n).score
  pub below : clamp (rule_tally cfg n).score ≤ℤ get_or cfg.llm_fallback.ambiguous_max (pos 69)

conclude-llm_used :
    (cfg : QualificationConfig) (total : ℤ) (signals : List Signal)
    (reason : Option FastTrackReason) (answer : Option LlmAnswer)
    → (conclude cfg total signals reason answer).llm_used ≡ true
    → answer ≢ none
unfolding conclude
conclude-llm_used cfg total signals reason none h e = cc
conclude-llm_used cfg total signals reason (some a) h e = cc

llm_answer-asked :
    (cfg : QualificationConfig) (llm : Llm) (n : Normalized) (total : ℤ)
    (reason : Option FastTrackReason)
    → llm_answer cfg llm n total reason ≢ none
    → (cfg.llm_fallback.enabled ≡ true)
      × (reason ≡ none)
      × (get_or cfg.llm_fallback.ambiguous_min (pos 40) ≤ℤ total)
      × (total ≤ℤ get_or cfg.llm_fallback.ambiguous_max (pos 69))
unfolding llm_answer
llm_answer-asked cfg llm n total (some reason) h = absurd (h refl)
llm_answer-asked cfg llm n total none h = (ground arith, refl, ground arith, ground arith)

-- If an answer of the model counts, then the model is enabled, neither a rule nor the threshold
-- fast-tracks the lead, and the clamped score of the rules lies in the ambiguous range.
score-MayAsk :
    (cfg : QualificationConfig) (llm : Llm) (r : Request)
    → (score cfg llm r).llm_used ≡ true
    → MayAsk cfg (normalize r)
unfolding score
score-MayAsk cfg llm r used =
    let n = normalize r in
    let t = rule_tally cfg n in
    let reason = check_fast_track_rules cfg n.source n.direction (clamp t.score) t.signals in
    let asked =
      conclude-llm_used cfg (clamp t.score) t.signals reason
        (llm_answer cfg llm n (clamp t.score) reason) used in
    let (on, untracked, above, below) = llm_answer-asked cfg llm n (clamp t.score) reason asked in
    record { enabled = on; untracked = untracked; above = above; below = below }

-- The synchronous scorer has the same result whatever the model would answer, and uses no answer.
score_lead_sync_deterministic :
    (cfg : QualificationConfig) (llm llm' : Llm) (r : Request)
    → (score_lead_sync cfg llm r ≡ score_lead_sync cfg llm' r)
      × ((score_lead_sync cfg llm r).llm_used ≡ false)
unfolding score_lead_sync score llm_answer conclude
score_lead_sync_deterministic cfg llm llm' r = (ground arith, ground arith)

llm_answer_lem :
    (cfg : QualificationConfig) (llm : Llm) (n : Normalized) (total : ℤ) {a : LlmAnswer}
    → cfg.llm_fallback.enabled ≡ true
    → get_or cfg.llm_fallback.ambiguous_min (pos 40) ≤ℤ total
    → total ≤ℤ get_or cfg.llm_fallback.ambiguous_max (pos 69)
    → llm n.lead n.messages n.classification total ≡ some a
    → llm_answer cfg llm n total none ≡ some a
unfolding llm_answer
llm_answer_lem cfg llm n total on above below answers = ground arith

clamp_top : (z a : ℤ) → pos 0 ≤ℤ z → pos 100 ≤ℤ a → clamp (z +ℤ a) ≡ pos 100
unfolding clamp
clamp_top z a h k = ground (arith, +ℤ_parts z a)

conclude_top :
    (cfg : QualificationConfig) (total : ℤ) (signals : List Signal) (a : LlmAnswer)
    → clamp (total +ℤ a.score_adjustment) ≡ pos 100
    → get_or cfg.thresholds.auto_promote (pos 70) ≤ℤ pos 100
    → let result = conclude cfg total signals none (some a) in
      (result.score ≡ pos 100) × (result.decision ≡ qualified) × (result.promote ≡ true)
unfolding conclude
conclude_top cfg total signals a top threshold = rw top (refl, ground arith, ground arith)

-- No bound holds the model's adjustment: where it is asked and answers with 100 or more, the final
-- score is 100, and the lead is qualified and promoted if the threshold is at most 100.
llm_answer_decides :
    (cfg : QualificationConfig) (llm : Llm) (r : Request) (a : LlmAnswer)
    → MayAsk cfg (normalize r)
    → llm
        (normalize r).lead
        (normalize r).messages
        (normalize r).classification
        (clamp (rule_tally cfg (normalize r)).score)
      ≡ some a
    → pos 100 ≤ℤ a.score_adjustment
    → get_or cfg.thresholds.auto_promote (pos 70) ≤ℤ pos 100
    → ((score cfg llm r).score ≡ pos 100)
      × ((score cfg llm r).decision ≡ qualified)
      × ((score cfg llm r).promote ≡ true)
unfolding score
llm_answer_decides cfg llm r a m answers big threshold =
    let n = normalize r in
    let t = rule_tally cfg n in
    rw (m.untracked, llm_answer_lem cfg llm n (clamp t.score) m.enabled m.above m.below answers)
      (conclude_top cfg (clamp t.score) t.signals a
        (clamp_top (clamp t.score) a.score_adjustment (clamp_bounds t.score).0 big) threshold)
