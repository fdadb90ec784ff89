-- ===== src/Qualification/Rules/Balance.antt =====
-- The score of each group is the sum of the points of its signals.
use enterprise_ai_sales_orch.Prelude.{
  if◌then◌else◌, ℕ, ◌≡◌, Bool, true, false, Option, none, some, List, [], ◌∷◌, ◌++◌, refl,
}
use enterprise_ai_sales_orch.Prelude.Int.{ℤ, pos, ◌+ℤ◌, int_laws}
use enterprise_ai_sales_orch.Prelude.Text.{Text, occurs, lower, or_empty}
use enterprise_ai_sales_orch.Qualification.Data.{QualificationConfig, Signal}
use enterprise_ai_sales_orch.Qualification.Input.{Lead, Message, Classification}
use enterprise_ai_sales_orch.Qualification.Rules.{
  Tally, empty, add, add_if, score_email_category, score_conversation, score_profile,
  score_engagement, score_negative, weight_of, add_category, add_confidence, score_title,
  score_domain, first_negative, negative_signal,
}

-- The points of a list of signals, added up.
unfoldable pub sum_points : List Signal → ℤ
sum_points [] = pos 0
sum_points (s ∷ ss) = s.points +ℤ sum_points ss

pub sum_points-append :
    (xs ys : List Signal) → sum_points (xs ++ ys) ≡ sum_points xs +ℤ sum_points ys
unfolding sum_points
sum_points-append [] ys = omega int_laws
sum_points-append (x ∷ xs) ys = rw (sum_points-append xs ys) (omega int_laws)

-- The score of a group is the sum of the points of its signals.
pub record IsBalanced (t : Tally) : Type 0 where
  pub balance : t.score ≡ sum_points t.signals

empty-IsBalanced : IsBalanced empty
unfolding empty sum_points
empty-IsBalanced = record { balance = refl }

add-IsBalanced : (s : Signal) (t : Tally) → IsBalanced t → IsBalanced (add s t)
unfolding add sum_points
add-IsBalanced s t h = record {
  balance = rw (sum_points-append t.signals (s ∷ [])) (rw h.balance (omega int_laws));
}

add_if-IsBalanced : (b : Bool) (s : Signal) (t : Tally) → IsBalanced t → IsBalanced (add_if b s t)
unfolding add_if
add_if-IsBalanced true s t h = add-IsBalanced s t h
add_if-IsBalanced false s t h = h

add_category-IsBalanced :
    (c : Text) (z : Option ℤ) (t : Tally) → IsBalanced t → IsBalanced (add_category c z t)
unfolding add_category
add_category-IsBalanced c none t h = h
add_category-IsBalanced c (some z) t h = add-IsBalanced _ t h

add_confidence-IsBalanced :
    (c : Text) (z : Option (ℕ × Text)) (t : Tally)
    → IsBalanced t
    → IsBalanced (add_confidence c z t)
unfolding add_confidence
add_confidence-IsBalanced c none t h = h
add_confidence-IsBalanced c (some (p, shown)) t h = add_if-IsBalanced _ _ t h

pub score_email_category-IsBalanced :
    (cfg : QualificationConfig) (c : Classification) → IsBalanced (score_email_category cfg c)
unfolding score_email_category
score_email_category-IsBalanced cfg c = add_confidence-IsBalanced _ c.confidence _ (
    add_category-IsBalanced _ (weight_of (lower (or_empty c.category)) cfg.email_category) _
      empty-IsBalanced)

pub score_conversation-IsBalanced :
    (cfg : QualificationConfig) (ms : List Message) (source : Text)
    → IsBalanced (score_conversation cfg ms source)
unfolding score_conversation
score_conversation-IsBalanced cfg [] source = empty-IsBalanced
score_conversation-IsBalanced cfg (m ∷ ms) source = add_if-IsBalanced _ _ _ (
    add_if-IsBalanced _ _ _ (
      add_if-IsBalanced _ _ _ (
        add_if-IsBalanced _ _ _
          (add_if-IsBalanced _ _ _ (add_if-IsBalanced _ _ _ (empty-IsBalanced))))))

score_title-IsBalanced :
    (cfg : QualificationConfig) (title : Text) (t : Tally)
    → IsBalanced t
    → IsBalanced (score_title cfg title t)
unfolding score_title
score_title-IsBalanced cfg [] t h = h
score_title-IsBalanced cfg (c ∷ title) t h = add_if-IsBalanced _ _ _ (add-IsBalanced _ t h)

score_domain-IsBalanced :
    (cfg : QualificationConfig) (email : Text) (t : Tally)
    → IsBalanced t
    → IsBalanced (score_domain cfg email t)
unfolding score_domain
score_domain-IsBalanced cfg email t h = add_if-IsBalanced _ _ t h

pub score_profile-IsBalanced :
    (cfg : QualificationConfig) (l : Lead) → IsBalanced (score_profile cfg l)
unfolding score_profile
score_profile-IsBalanced cfg l = score_domain-IsBalanced cfg _ _ (
    add_if-IsBalanced _ _ _ (
      add_if-IsBalanced _ _ _
        (score_title-IsBalanced cfg _ _ (add_if-IsBalanced _ _ _ empty-IsBalanced))))

pub score_engagement-IsBalanced :
    (cfg : QualificationConfig) (source direction : Text)
    → IsBalanced (score_engagement cfg source direction)
unfolding score_engagement
score_engagement-IsBalanced cfg source direction =
    add_if-IsBalanced _ _ _ (add_if-IsBalanced _ _ _ empty-IsBalanced)

first_negative-IsBalanced :
    (cfg : QualificationConfig) (content : Text) (kws : List Text)
    → IsBalanced (first_negative cfg content kws)
unfolding first_negative
first_negative-IsBalanced cfg content [] = empty-IsBalanced
first_negative-IsBalanced cfg content (kw ∷ kws) =
    by_test (occurs kw content) (first_negative-IsBalanced cfg content kws)
  where
    by_test :
        (b : Bool)
        → IsBalanced (first_negative cfg content kws)
        → IsBalanced
            (if b then add (negative_signal cfg kw) empty else first_negative cfg content kws)
    by_test true h = add-IsBalanced _ empty empty-IsBalanced
    by_test false h = h

pub score_negative-IsBalanced :
    (cfg : QualificationConfig) (ms : List Message) → IsBalanced (score_negative cfg ms)
unfolding score_negative
score_negative-IsBalanced cfg [] = empty-IsBalanced
score_negative-IsBalanced cfg (m ∷ ms) = first_negative-IsBalanced cfg _ cfg.not_interested_keywords
