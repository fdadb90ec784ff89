-- ===== src/Qualification/Accounting.antt =====
-- The score is the points of its signals, clamped.
use enterprise_ai_sales_orch.Prelude.{
  inr, inl, ◌⊎◌, ◌≡◌, true, false, Option, none, some, List, [], ◌∷◌, ◌++◌, refl, ap,
}
use enterprise_ai_sales_orch.Prelude.Int.{ℤ, ◌+ℤ◌, int_laws}
use enterprise_ai_sales_orch.Qualification.Data.{
  QualificationConfig, QualificationResult, Signal, FastTrackReason,
}
use enterprise_ai_sales_orch.Qualification.Rules.Balance.{
  IsBalanced, sum_points, sum_points-append, score_email_category-IsBalanced,
  score_conversation-IsBalanced, score_profile-IsBalanced, score_engagement-IsBalanced,
  score_negative-IsBalanced,
}
use enterprise_ai_sales_orch.Qualification.Scorer.{
  Llm, LlmAnswer, Request, Normalized, normalize, rule_tally, clamp, conclude, score,
}

rule_tally-IsBalanced : (cfg : QualificationConfig) (n : Normalized) → IsBalanced (rule_tally cfg n)
unfolding rule_tally
rule_tally-IsBalanced cfg n = record {
  balance =
      simp
        (
          sum_points-append,
          (score_email_category-IsBalanced cfg n.classification).balance,
          (score_conversation-IsBalanced cfg n.messages n.source).balance,
          (score_profile-IsBalanced cfg n.lead).balance,
          (score_engagement-IsBalanced cfg n.source n.direction).balance,
          (score_negative-IsBalanced cfg n.messages).balance,
        )
        (omega int_laws);
}

-- Either no answer of the model counts and the score is the points of the signals, clamped to the
-- range; or it is the points of all signals but the last clamped, then those of the last, which is the
-- answer's adjustment, added and clamped again.
abbrev pub Accounts : QualificationResult → Type 0
Accounts result =
    ((result.llm_used ≡ false) × (result.score ≡ clamp (sum_points result.signals)))
    ⊎ ((result.llm_used ≡ true)
        × ((rules : List Signal) × (last : Signal) × (result.signals ≡ rules ++ last ∷ [])
            × (last.points ≡ result.llm_adjustment)
            × (result.score ≡ clamp (clamp (sum_points rules) +ℤ last.points))))

conclude-Accounts :
    (cfg : QualificationConfig) (total : ℤ) (signals : List Signal)
    (reason : Option FastTrackReason) (answer : Option LlmAnswer)
    → total ≡ clamp (sum_points signals)
    → Accounts (conclude cfg total signals reason answer)
unfolding conclude
conclude-Accounts cfg total signals reason none e = inl (refl, e)
conclude-Accounts cfg total signals reason (some a) e =
    inr (refl, (signals, _, refl, refl, ap (λ z. clamp (z +ℤ a.score_adjustment)) e))

-- Without an answer of the model, the score is the points of the signals in the result, clamped to the
-- range 0 to 100. With one, it is the points of all signals but the last clamped, then those of the
-- last, which is the answer's adjustment, added and clamped again.
pub score-Accounts :
    (cfg : QualificationConfig) (llm : Llm) (r : Request) → Accounts (score cfg llm r)
unfolding score
score-Accounts cfg llm r =
    conclude-Accounts cfg _ _ _ _ (ap clamp (rule_tally-IsBalanced cfg (normalize r)).balance)
