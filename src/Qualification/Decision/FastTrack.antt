-- ===== src/Qualification/Decision/FastTrack.antt =====
-- The loop over the fast-track rules against a description of when a rule applies.
use enterprise_ai_sales_orch.Prelude.{
  Bool-cases, ◌≡◌, ◌↔◌, ◌⊎◌, inl, inr, true, false, Option, none, some, List, [], ◌∷◌, arith, refl,
  All, any, map,
}
use enterprise_ai_sales_orch.Prelude.Int.{ℤ, pos, ◌≤ℤ◌}
use enterprise_ai_sales_orch.Prelude.Text.{Text, text_eq-eq, text_eq_refl, listed}
use enterprise_ai_sales_orch.Qualification.Data.{
  get_or, QualificationConfig, FastTrackRule, Condition, Signal,
}
use enterprise_ai_sales_orch.Qualification.Decision.{
  differs, first_match, required_present, conditions_met, rule_matches, check_fast_track_rules,
}

-- A condition holds: each key that it has names the value that the lead has.
pub record Holds (source direction : Text) (c : Condition) : Type 0 where
  pub source_is : (t : Text) → c.lead_source ≡ some t → t ≡ source
  pub direction_is : (t : Text) → c.email_direction ≡ some t → t ≡ direction

-- A rule applies: the score reaches its minimum, its conditions hold, and it requires no signal or one
-- that is there.
pub record Applies (source direction : Text) (score : ℤ) (signals : List Signal) (r : FastTrackRule)
    : Type 0 where
  pub reached : get_or r.min_score (pos 0) ≤ℤ score
  pub conditions : All (Holds source direction) r.conditions
  pub required :
      (r.signals_required ≡ [])
      ⊎ (any (λ t. listed t (map (λ s. s.name) signals)) r.signals_required ≡ true)

differs_iff :
    (o : Option Text) (v : Text) → (differs o v ≡ false) ↔ ((t : Text) → o ≡ some t → t ≡ v)
unfolding differs
differs_iff none v = (λ _ t e. cc, λ _. refl)
differs_iff (some u) v =
    (λ h t e. text_eq-eq t v (ground (arith)), λ h. ground (arith, h u refl, text_eq_refl v))

module _ (source direction : Text) where
  condition_iff :
      (c : Condition)
      → ((differs c.lead_source source ≡ false) × (differs c.email_direction direction ≡ false))
        ↔ Holds source direction c
  condition_iff c = (
    λ h. record {
      source_is = (differs_iff c.lead_source source).0 h.0;
      direction_is = (differs_iff c.email_direction direction).0 h.1;
    },
    λ h. (
      (differs_iff c.lead_source source).1 h.source_is,
      (differs_iff c.email_direction direction).1 h.direction_is,
    ),
  )

  conditions_met_iff :
      (cs : List Condition)
      → (conditions_met source direction cs ≡ true) ↔ All (Holds source direction) cs
  unfolding conditions_met
  conditions_met_iff [] = (λ _. tt, λ _. refl)
  conditions_met_iff (c ∷ cs) = (
    λ h. (
      (condition_iff c).0 (ground arith, ground arith),
      (conditions_met_iff cs).0 (ground arith),
    ),
    λ h. let both = (condition_iff c).1 h.0 in ground (arith, both, (conditions_met_iff cs).1 h.1),
  )

  module _ (score : ℤ) (signals : List Signal) where
    required_present_iff :
        (rs : List Text)
        → (required_present rs signals ≡ true)
          ↔ ((rs ≡ []) ⊎ (any (λ t. listed t (map (λ s. s.name) signals)) rs ≡ true))
    unfolding required_present
    required_present_iff [] = (λ _. inl refl, λ _. refl)
    required_present_iff (r ∷ rs) = (λ h. inr h, λ h. elim h [ inl e ↦ cc | inr e ↦ e ])

    rule_matches_iff :
        (r : FastTrackRule)
        → (rule_matches source direction score signals r ≡ true)
          ↔ Applies source direction score signals r
    unfolding rule_matches
    rule_matches_iff r = (
      λ h. record {
        reached = ground arith;
        conditions = (conditions_met_iff r.conditions).0 (ground arith);
        required = (required_present_iff r.signals_required).0 (ground arith);
      },
      λ a.
          let met = (conditions_met_iff r.conditions).1 a.conditions in
          let present = (required_present_iff r.signals_required).1 a.required in
          ground (arith, a.reached),
    )

    first_match-eq-none_iff :
        (rs : List FastTrackRule)
        → (first_match source direction score signals rs ≡ none)
          ↔ All (λ r. ¬ Applies source direction score signals r) rs
    unfolding first_match
    first_match-eq-none_iff [] = (λ _. tt, λ _. refl)
    first_match-eq-none_iff (r ∷ rs) = (
      λ h. (
        λ a. let m = (rule_matches_iff r).1 a in absurd (ground arith),
        (first_match-eq-none_iff rs).0 (ground arith),
      ),
      λ h. elim (Bool-cases (rule_matches source direction score signals r)) [
        | inl m ↦ absurd (h.0 ((rule_matches_iff r).0 m))
        | inr m ↦ rw m ((first_match-eq-none_iff rs).1 h.1)
      ],
    )

    -- A lead is not fast-tracked exactly when no rule of the configuration applies (the score reaches
    -- its minimum, each of its conditions names the lead's source and direction, and one of the
    -- signals that it requires, if any, is there), and the score lies below the fast-track threshold.
    pub check_fast_track_rules-eq-none_iff :
        (cfg : QualificationConfig)
        → (check_fast_track_rules cfg source direction score signals ≡ none) ↔ (
            All (λ r. ¬ Applies source direction score signals r) cfg.fast_track_rules
            × (¬ (get_or cfg.thresholds.fast_track (pos 85) ≤ℤ score)))
    unfolding check_fast_track_rules
    check_fast_track_rules-eq-none_iff cfg =
        let found = first_match source direction score signals cfg.fast_track_rules in
        (
          λ h. ((first_match-eq-none_iff cfg.fast_track_rules).0 (ground arith), ground arith),
          λ h.
              let missed = (first_match-eq-none_iff cfg.fast_track_rules).1 h.0 in
              ground (arith, h.1),
        )
