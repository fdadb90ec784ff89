-- ===== src/Qualification/Decision.antt =====
-- From a score to a decision: the fast-track rules, the range in which the model is asked, the
-- thresholds, and the reasoning.
pub mod FastTrack
use enterprise_ai_sales_orch.Prelude.{
  Bool, true, false, ◌&&◌, not, Option, none, some, List, [], ◌∷◌, map, if◌then◌else◌, any, keep,
  take,
}
use enterprise_ai_sales_orch.Prelude.Int.{ℤ, pos, leb_ℤ, ltb_ℤ}
use enterprise_ai_sales_orch.Prelude.Text.{Text, text_eq, listed}
use enterprise_ai_sales_orch.Qualification.Data.{
  get_or, QualificationConfig, FastTrackRule, Condition, Signal, shows_plus, shows_minus, Decision,
  qualified, nurture, disqualified, fast_track, FastTrackReason, by_rule, by_score, Reasoning,
  qualified_by, exceeds_qualification, disqualified_by, below_minimum, needs_engagement,
}

-- `key in cond and cond[key] != value`
differs : Option Text → Text → Bool
differs none v = false
differs (some u) v = not (text_eq u v)

-- the loop over `conditions`
conditions_met : Text → Text → List Condition → Bool
unfolding differs
conditions_met source direction [] = true
conditions_met source direction (c ∷ cs) =
    if differs c.lead_source source
    then false
    else if differs c.email_direction direction
    then false
    else conditions_met source direction cs

-- the test of `signals_required`
required_present : List Text → List Signal → Bool
required_present [] signals = true
required_present (r ∷ rs) signals = any (λ req. listed req (map (λ s. s.name) signals)) (r ∷ rs)

pub rule_matches : Text → Text → ℤ → List Signal → FastTrackRule → Bool
rule_matches source direction score signals rule =
    if ltb_ℤ score (get_or rule.min_score (pos 0))
    then false
    else if not (conditions_met source direction rule.conditions)
    then false
    else required_present rule.signals_required signals

described : FastTrackRule → Text
described rule = elim rule.description [ none ↦ rule.name | some d ↦ d ]

-- the loop over the rules
first_match : Text → Text → ℤ → List Signal → List FastTrackRule → Option Text
first_match source direction score signals [] = none
first_match source direction score signals (r ∷ rs) =
    if rule_matches source direction score signals r
    then some (described r)
    else first_match source direction score signals rs

-- `_check_fast_track_rules`; `none` is `False, ""`
pub check_fast_track_rules :
    QualificationConfig → Text → Text → ℤ → List Signal → Option FastTrackReason
check_fast_track_rules cfg source direction score signals =
    elim (first_match source direction score signals cfg.fast_track_rules) [
      | some d ↦ some (by_rule d)
      | none ↦
          if leb_ℤ (get_or cfg.thresholds.fast_track (pos 85)) score
          then some (by_score score)
          else none
    ]

unfoldable pub is_ambiguous : QualificationConfig → ℤ → Bool
is_ambiguous cfg score =
    if not cfg.llm_fallback.enabled
    then false
    else leb_ℤ (get_or cfg.llm_fallback.ambiguous_min (pos 40)) score
      && leb_ℤ score (get_or cfg.llm_fallback.ambiguous_max (pos 69))

unfoldable pub make_decision : QualificationConfig → ℤ → Bool → Decision × Bool
make_decision cfg score is_fast_track =
    if is_fast_track
    then (fast_track, true)
    else if leb_ℤ (get_or cfg.thresholds.auto_promote (pos 70)) score
    then (qualified, true)
    else if leb_ℤ score (get_or cfg.thresholds.disqualify (pos 20))
    then (disqualified, false)
    else (nurture, false)

names_of : List Signal → List Text
names_of ss = map (λ s. s.name) ss

qualified_reasoning : List Signal → Reasoning
unfolding names_of
qualified_reasoning [] = exceeds_qualification
qualified_reasoning (s ∷ ss) = qualified_by (names_of (take 3 (s ∷ ss)))

disqualified_reasoning : List Signal → Reasoning
unfolding names_of
disqualified_reasoning [] = below_minimum
disqualified_reasoning (s ∷ ss) = disqualified_by (names_of (s ∷ ss))

unfoldable pub build_reasoning : List Signal → Decision → Reasoning
unfolding qualified_reasoning disqualified_reasoning shows_plus shows_minus
build_reasoning signals qualified = qualified_reasoning (keep shows_plus signals)
build_reasoning signals disqualified = disqualified_reasoning (keep shows_minus signals)
build_reasoning signals _ = needs_engagement

-- The names that a run of the rules unfolds.
unfoldable pub fast_track_check : Unit {0}
unfolding check_fast_track_rules first_match rule_matches conditions_met required_present described
fast_track_check = tt
