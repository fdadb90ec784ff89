-- ===== src/Qualification/Tests.antt =====
-- Runs of the scorer at concrete inputs, with the weights of config/manager/qualification.yaml where
-- they are set.
use enterprise_ai_sales_orch.Prelude.{◌≡◌, ◌↔◌, true, none, some, [], ◌∷◌, refl, All}
use enterprise_ai_sales_orch.Prelude.Int.{ℤ, pos, negsuc, ◌+ℤ◌, ◌≤ℤ◌}
use enterprise_ai_sales_orch.Prelude.Text.{codes, decimal}
use enterprise_ai_sales_orch.Qualification.Data.{
  QualificationConfig, FastTrackRule, qualified, shows_plus, shows_minus,
}
use enterprise_ai_sales_orch.Qualification.Input.{no_lead, message}
use enterprise_ai_sales_orch.Qualification.Rules.{rules}
use enterprise_ai_sales_orch.Qualification.Decision.{
  make_decision, check_fast_track_rules, fast_track_check, build_reasoning,
}
use enterprise_ai_sales_orch.Qualification.Decision.FastTrack.{
  Applies, check_fast_track_rules-eq-none_iff,
}
use enterprise_ai_sales_orch.Qualification.Scorer.{
  Llm, Request, normalize, rule_tally, clamp, conclude, llm_answer, score,
}
use enterprise_ai_sales_orch.Qualification.Accounting.{Accounts, score-Accounts}
use enterprise_ai_sales_orch.Qualification.Outcomes.{IsCoherent, score-IsCoherent}

abbrev meeting_request : FastTrackRule
meeting_request = record {
  name = codes "meeting_request";
  description = none;
  min_score = some (pos 60);
  conditions = [];
  signals_required = codes "requested_meeting" ∷ codes "requested_demo" ∷ [];
}

abbrev cfg : QualificationConfig
cfg = record {
  thresholds = record { auto_promote = some (pos 70); fast_track = none; disqualify = none };
  email_category = (codes "business_inquiry", pos 25) ∷ (codes "spam", negsuc 49) ∷ [];
  conversation = record {
    has_reply = none;
    multiple_messages = none;
    asked_question = none;
    mentioned_budget = none;
    mentioned_timeline = none;
    requested_meeting = none;
  };
  profile = record {
    has_company = none;
    has_title = none;
    decision_maker_title = none;
    has_phone = none;
    has_linkedin = none;
    known_domain = none;
  };
  engagement = record { first_contact_inbound = none; campaign_reply = none };
  negative = record {
    unsubscribe_request = none;
    not_interested = none;
    wrong_contact = none;
    competitor = none;
  };
  fast_track_rules = meeting_request ∷ [];
  llm_fallback = record { enabled = true; ambiguous_min = none; ambiguous_max = none };
  decision_maker_titles = codes "ceo" ∷ [];
  freemail_domains = codes "gmail.com" ∷ [];
  budget_keywords = codes "price" ∷ [];
  timeline_keywords = [];
  meeting_keywords = codes "demo" ∷ [];
  not_interested_keywords = codes "unsubscribe" ∷ [];
}

-- a new lead with a company, that asks for the price
abbrev asks : Request
asks = record {
  lead_data =
      some (record no_lead {
        email = some (codes "Ann@Acme.com ");
        company_name = some (codes "Acme");
      });
  conversation_history = some (
      message (record {
        content = some (codes "What is the Price?");
        text_content = none;
        direction = none;
        sender = none;
      })
      ∷ []);
  email_classification = none;
  lead_source = none;
  email_direction = none;
}

-- a model that always answers with an adjustment
abbrev eager : ℤ → Llm
eager z lead messages classification total =
    some (record { score_adjustment = z; reasoning = codes "keen" })

scorer : Unit {0}
unfolding score rules fast_track_check rule_tally normalize clamp conclude llm_answer make_decision
    build_reasoning ◌+ℤ◌ decimal shows_plus shows_minus
scorer = tt

asks_points : (clamp (rule_tally cfg (normalize asks)).score) ≡ pos 55
unfolding scorer
asks_points = refl

asks_result : (score cfg (eager (pos 15)) asks).decision ≡ qualified
unfolding scorer
asks_result = refl

score-Accounts_example : Accounts (score cfg (eager (pos 15)) asks)
score-Accounts_example = score-Accounts cfg (eager (pos 15)) asks

score-IsCoherent_example : IsCoherent cfg (score cfg (eager (pos 15)) asks)
score-IsCoherent_example = score-IsCoherent cfg (eager (pos 15)) asks

asks_llm : (score cfg (eager (pos 15)) asks).llm_used ≡ true
unfolding scorer
asks_llm = refl

check_fast_track_rules-eq-none_iff_example :
    (check_fast_track_rules cfg (codes "new") (codes "inbound") (pos 65) [] ≡ none) ↔ (
      All (λ r. ¬ Applies (codes "new") (codes "inbound") (pos 65) [] r) (meeting_request ∷ [])
      × (¬ (pos 85 ≤ℤ pos 65)))
check_fast_track_rules-eq-none_iff_example =
    check_fast_track_rules-eq-none_iff (codes "new") (codes "inbound") (pos 65) [] cfg
