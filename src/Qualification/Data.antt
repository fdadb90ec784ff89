-- ===== src/Qualification/Data.antt =====
-- The records of the scorer: its configuration, its input after it has been read, and its result.
-- A value of a dictionary that may be missing is an `Option`. Texts are lists of code points.
use enterprise_ai_sales_orch.Prelude.{ℕ, Bool, true, false, Option, none, some, List, ◌||◌, any}
use enterprise_ai_sales_orch.Prelude.Int.{ℤ, pos, leb_ℤ, ltb_ℤ}
use enterprise_ai_sales_orch.Prelude.Text.{Text, codes, occurs}

-- `d.get(key, default)`
abbrev pub get_or : Option ℤ → ℤ → ℤ
get_or none d = d
get_or (some z) d = z

pub record Thresholds : Type 0 where
  pub auto_promote : Option ℤ
  pub fast_track : Option ℤ
  pub disqualify : Option ℤ

pub record ConversationWeights : Type 0 where
  pub has_reply : Option ℤ
  pub multiple_messages : Option ℤ
  pub asked_question : Option ℤ
  pub mentioned_budget : Option ℤ
  pub mentioned_timeline : Option ℤ
  pub requested_meeting : Option ℤ

pub record ProfileWeights : Type 0 where
  pub has_company : Option ℤ
  pub has_title : Option ℤ
  pub decision_maker_title : Option ℤ
  pub has_phone : Option ℤ
  pub has_linkedin : Option ℤ
  pub known_domain : Option ℤ

pub record EngagementWeights : Type 0 where
  pub first_contact_inbound : Option ℤ
  pub campaign_reply : Option ℤ

pub record NegativeWeights : Type 0 where
  pub unsubscribe_request : Option ℤ
  pub not_interested : Option ℤ
  pub wrong_contact : Option ℤ
  pub competitor : Option ℤ

-- An entry of a rule's `conditions`: the keys that the code looks for.
pub record Condition : Type 0 where
  pub lead_source : Option Text
  pub email_direction : Option Text

pub record FastTrackRule : Type 0 where
  pub name : Text
  pub description : Option Text
  pub min_score : Option ℤ
  pub conditions : List Condition
  pub signals_required : List Text

pub record LlmFallback : Type 0 where
  pub enabled : Bool
  pub ambiguous_min : Option ℤ
  pub ambiguous_max : Option ℤ

-- `QualificationConfig`
pub record QualificationConfig : Type 0 where
  pub thresholds : Thresholds
  pub email_category : List (Text × ℤ)
  pub conversation : ConversationWeights
  pub profile : ProfileWeights
  pub engagement : EngagementWeights
  pub negative : NegativeWeights
  pub fast_track_rules : List FastTrackRule
  pub llm_fallback : LlmFallback
  pub decision_maker_titles : List Text
  pub freemail_domains : List Text
  pub budget_keywords : List Text
  pub timeline_keywords : List Text
  pub meeting_keywords : List Text
  pub not_interested_keywords : List Text

-- How the points end a signal's text: `:+{points}`, `:{points:+d}` or `:{points}`.
pub data Format : Type 0 where
  plus signed bare : Format

-- A signal is the text `name:detail:points`: its parts, with the details between.
pub record Signal : Type 0 where
  pub name : Text
  pub details : List Text
  pub format : Format
  pub points : ℤ

-- `"+" in s`; the names hold neither sign
unfoldable pub shows_plus : Signal → Bool
shows_plus s =
    any (occurs (codes "+")) s.details
    || elim s.format [ plus ↦ true | signed ↦ leb_ℤ (pos 0) s.points | bare ↦ false ]

-- `"-" in s`
unfoldable pub shows_minus : Signal → Bool
shows_minus s = any (occurs (codes "-")) s.details || ltb_ℤ s.points (pos 0)

pub data Decision : Type 0 where
  qualified nurture disqualified fast_track : Decision

-- Why a lead is fast-tracked: the text of a rule, or `Score … exceeds fast-track threshold`.
pub data FastTrackReason : Type 0 where
  by_rule : Text → FastTrackReason
  by_score : ℤ → FastTrackReason

-- The texts of `reasoning`, by what they say.
pub data Reasoning : Type 0 where
  fast_tracked : FastTrackReason → Reasoning
  by_llm : Text → Reasoning
  qualified_by : List Text → Reasoning
  exceeds_qualification : Reasoning
  disqualified_by : List Text → Reasoning
  below_minimum : Reasoning
  needs_engagement : Reasoning

-- `QualificationResult`; the confidence is in hundredths
pub record QualificationResult : Type 0 where
  pub score : ℤ
  pub decision : Decision
  pub promote : Bool
  pub fast_track : Bool
  pub signals : List Signal
  pub reasoning : Reasoning
  pub llm_used : Bool
  pub llm_adjustment : ℤ
  pub confidence : ℕ
