-- ===== src/PreFilter/Scores.antt =====
-- The two scores of an email as counts of its indicators: each sum of binary64 numbers against its
-- threshold.
use enterprise_ai_sales_orch.Prelude.{
  ℕ, suc, List, [], ◌∷◌, Bool, true, false, ◌||◌, ◌&&◌, leb, min, refl, ◌≡◌,
}
use enterprise_ai_sales_orch.PreFilter.{add_score, Checks, marketing_score, newsletter_score}
use enterprise_ai_sales_orch.PreFilter.Float.{add_float}

-- how many of the tests hold
unfoldable pub count : List Bool → ℕ
count [] = 0
count (true ∷ bs) = suc (count bs)
count (false ∷ bs) = count bs

-- the indicators of marketing
abbrev pub marketing_indicators : Checks → List Bool
marketing_indicators k = k.unsubscribe ∷ k.platform ∷ k.sender ∷ k.marketing_text ∷ []

-- a bulk precedence, or the three indicators of a newsletter
abbrev pub looks_newsletter : Checks → Bool
looks_newsletter k = k.bulk || (k.unsubscribe && k.sender && k.newsletter_text)

marketing_sums :
    (unsubscribe platform sender marketing_text : Bool)
    → leb 46837436124653160 (
        add_score marketing_text 25220157913274776 (
          add_score sender 18014398509481984
            (add_score platform 18014398509481984 (add_score unsubscribe 21617278211378380 0))))
      ≡ leb 3 (count (unsubscribe ∷ platform ∷ sender ∷ marketing_text ∷ []))
unfolding add_score count
marketing_sums false false false false = refl
marketing_sums false false false true = refl
marketing_sums false false true false = refl
marketing_sums false false true true = refl
marketing_sums false true false false = refl
marketing_sums false true false true = refl
marketing_sums false true true false = refl
marketing_sums false true true true = refl
marketing_sums true false false false = refl
marketing_sums true false false true = refl
marketing_sums true false true false = refl
marketing_sums true false true true = refl
marketing_sums true true false false = refl
marketing_sums true true false true = refl
marketing_sums true true true false = refl
marketing_sums true true true true = refl

pub marketing_reached :
    (k : Checks)
    → leb 46837436124653160 (marketing_score k) ≡ leb 3 (count (marketing_indicators k))
unfolding marketing_score
marketing_reached k = marketing_sums k.unsubscribe k.platform k.sender k.marketing_text

marketing_confidences :
    (unsubscribe platform sender marketing_text : Bool)
    → leb 3 (count (unsubscribe ∷ platform ∷ sender ∷ marketing_text ∷ [])) ≡ true
    → min 68454714336031536 (
        add_float 39631676720860368 (
          add_score marketing_text 25220157913274776 (
            add_score sender 18014398509481984
              (add_score platform 18014398509481984 (add_score unsubscribe 21617278211378380 0)))))
      ≡ 68454714336031536
unfolding add_score add_float count
marketing_confidences false false false false h = cc
marketing_confidences false false false true h = cc
marketing_confidences false false true false h = cc
marketing_confidences false false true true h = cc
marketing_confidences false true false false h = cc
marketing_confidences false true false true h = cc
marketing_confidences false true true false h = cc
marketing_confidences false true true true h = refl
marketing_confidences true false false false h = cc
marketing_confidences true false false true h = cc
marketing_confidences true false true false h = cc
marketing_confidences true false true true h = refl
marketing_confidences true true false false h = cc
marketing_confidences true true false true h = refl
marketing_confidences true true true false h = refl
marketing_confidences true true true true h = refl

-- the confidence of a marketing email
pub marketing_confidence :
    (k : Checks)
    → leb 3 (count (marketing_indicators k)) ≡ true
    → min 68454714336031536 (add_float 39631676720860368 (marketing_score k)) ≡ 68454714336031536
unfolding marketing_score
marketing_confidence k = marketing_confidences k.unsubscribe k.platform k.sender k.marketing_text

newsletter_sums :
    (bulk unsubscribe sender newsletter_text : Bool)
    → leb 43234556422756760 (
        add_score newsletter_text 18014398509481984 (
          add_score sender 7205759403792794
            (add_score unsubscribe 21617278211378380 (add_score bulk 46837436124653160 0))))
      ≡ bulk || (unsubscribe && sender && newsletter_text)
unfolding add_score
newsletter_sums false false false false = refl
newsletter_sums false false false true = refl
newsletter_sums false false true false = refl
newsletter_sums false false true true = refl
newsletter_sums false true false false = refl
newsletter_sums false true false true = refl
newsletter_sums false true true false = refl
newsletter_sums false true true true = refl
newsletter_sums true false false false = refl
newsletter_sums true false false true = refl
newsletter_sums true false true false = refl
newsletter_sums true false true true = refl
newsletter_sums true true false false = refl
newsletter_sums true true false true = refl
newsletter_sums true true true false = refl
newsletter_sums true true true true = refl

pub newsletter_reached :
    (k : Checks) → leb 43234556422756760 (newsletter_score k) ≡ looks_newsletter k
unfolding newsletter_score
newsletter_reached k = newsletter_sums k.bulk k.unsubscribe k.sender k.newsletter_text

newsletter_confidences :
    (bulk unsubscribe sender newsletter_text : Bool)
    → bulk || (unsubscribe && sender && newsletter_text) ≡ true
    → min 64851834634135144 (
        add_float 36028797018963968 (
          add_score newsletter_text 18014398509481984 (
            add_score sender 7205759403792794
              (add_score unsubscribe 21617278211378380 (add_score bulk 46837436124653160 0)))))
      ≡ 64851834634135144
unfolding add_score add_float
newsletter_confidences false false false false h = cc
newsletter_confidences false false false true h = cc
newsletter_confidences false false true false h = cc
newsletter_confidences false false true true h = cc
newsletter_confidences false true false false h = cc
newsletter_confidences false true false true h = cc
newsletter_confidences false true true false h = cc
newsletter_confidences false true true true h = refl
newsletter_confidences true false false false h = refl
newsletter_confidences true false false true h = refl
newsletter_confidences true false true false h = refl
newsletter_confidences true false true true h = refl
newsletter_confidences true true false false h = refl
newsletter_confidences true true false true h = refl
newsletter_confidences true true true false h = refl
newsletter_confidences true true true true h = refl

-- the confidence of a newsletter
pub newsletter_confidence :
    (k : Checks)
    → looks_newsletter k ≡ true
    → min 64851834634135144 (add_float 36028797018963968 (newsletter_score k)) ≡ 64851834634135144
unfolding newsletter_score
newsletter_confidence k = newsletter_confidences k.bulk k.unsubscribe k.sender k.newsletter_text
