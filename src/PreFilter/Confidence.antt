-- ===== src/PreFilter/Confidence.antt =====
-- The confidence in a category.
use enterprise_ai_sales_orch.Prelude.{
  Bool, true, false, leb, ◌≤◌, ◌≡◌, ◌≢◌, min, none, some, arith, refl,
}
use enterprise_ai_sales_orch.Prelude.Text.{Text}
use enterprise_ai_sales_orch.PreFilter.{
  Checks, marketing, newsletter, PreFilterResult, Email, decide, scored, pre_filter_email, checks,
  marketing_score, newsletter_score,
}
use enterprise_ai_sales_orch.PreFilter.Float.{add_float}
use enterprise_ai_sales_orch.PreFilter.Scores.{
  count, marketing_indicators, looks_newsletter, marketing_reached, newsletter_reached,
  marketing_confidence, newsletter_confidence,
}

-- 0.80 to 0.95 in a category, 0.95 in marketing, 0.90 in a newsletter, 0 in none
pub record IsSure (r : PreFilterResult) : Type 0 where
  pub least : r.category ≢ none → 57646075230342352 ≤ r.confidence
  pub most : r.confidence ≤ 68454714336031536
  pub in_marketing : r.category ≡ some marketing → r.confidence ≡ 68454714336031536
  pub in_newsletter : r.category ≡ some newsletter → r.confidence ≡ 64851834634135144
  pub in_none : r.category ≡ none → r.confidence ≡ 0

by_scores :
    (k : Checks) (m n : Bool)
    → leb 46837436124653160 (marketing_score k) ≡ m
    → (m ≡ true
        → min 68454714336031536 (add_float 39631676720860368 (marketing_score k))
          ≡ 68454714336031536)
    → leb 43234556422756760 (newsletter_score k) ≡ n
    → (n ≡ true
        → min 64851834634135144 (add_float 36028797018963968 (newsletter_score k))
          ≡ 64851834634135144)
    → IsSure (scored k)
unfolding scored
by_scores k true n em c en d =
    let sure = c refl in
    record {
      least = ground (arith, em, sure);
      most = ground (arith, em, sure);
      in_marketing = ground (arith, em, sure);
      in_newsletter = ground (arith, em, sure);
      in_none = ground (arith, em, sure);
    }
by_scores k false true em c en d =
    let sure = d refl in
    record {
      least = ground (arith, em, en, sure);
      most = ground (arith, em, en, sure);
      in_marketing = ground (arith, em, en, sure);
      in_newsletter = ground (arith, em, en, sure);
      in_none = ground (arith, em, en, sure);
    }
by_scores k false false em c en d = record {
  least = ground (arith, em, en);
  most = ground (arith, em, en);
  in_marketing = ground (arith, em, en);
  in_newsletter = ground (arith, em, en);
  in_none = ground (arith, em, en);
}

scored-IsSure : (k : Checks) → IsSure (scored k)
scored-IsSure k =
    by_scores k (leb 3 (count (marketing_indicators k))) (looks_newsletter k) (marketing_reached k)
      (marketing_confidence k) (newsletter_reached k) (newsletter_confidence k)

-- An email in a category has a confidence between 0.80 and 0.95; it is 0.95 for all marketing, and
-- 0.90 for all newsletters, whatever their scores; and 0 for an email in none.
pre_filter_email-IsSure :
    (re_search : Text → Text → Bool) (e : Email) → IsSure (pre_filter_email re_search e)
unfolding pre_filter_email decide
pre_filter_email-IsSure re_search e =
    let k = checks re_search e in
    by_cases k k.bounced_sender k.bounced_subject k.suppressed k.replied_subject k.known_domain
      k.known_subject
  where
    by_cases :
        (k : Checks) (a b c d e f : Bool)
        → IsSure (
            decide (record k {
              bounced_sender = a;
              bounced_subject = b;
              suppressed = c;
              replied_subject = d;
              known_domain = e;
              known_subject = f;
            }))
    by_cases k true b c d e f = ground arith
    by_cases k false true c d e f = ground arith
    by_cases k false false true d e f = ground arith
    by_cases k false false false true e f = ground arith
    by_cases k false false false false true f = ground arith
    by_cases k false false false false false true = ground arith
    by_cases k false false false false false false = scored-IsSure k
