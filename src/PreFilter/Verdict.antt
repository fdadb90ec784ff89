-- ===== src/PreFilter/Verdict.antt =====
-- Which category an email gets: the rules before the scores in their order, and the scores as counts
-- of indicators.
use enterprise_ai_sales_orch.Prelude.{
  ◌↔◌, Bool, true, false, ◌||◌, ◌↔◌, ◌≤◌, ◌<◌, Option, none, some, leb, refl, sym, ◌≡◌, arith,
}
use enterprise_ai_sales_orch.PreFilter.{
  Text, some, Option, Checks, Category, bounce, auto_reply, system, marketing, newsletter, decide,
  checks, pre_filter_email, Email, scored,
}
use enterprise_ai_sales_orch.PreFilter.Scores.{
  newsletter_reached, marketing_reached, count, marketing_indicators, looks_newsletter,
}

abbrev pub is_bounce : Checks → Bool
is_bounce k = k.bounced_sender || k.bounced_subject

abbrev pub is_reply : Checks → Bool
is_reply k = k.suppressed || k.replied_subject

abbrev pub is_system : Checks → Bool
is_system k = k.known_domain || k.known_subject

-- no rule before the scores matches
abbrev pub IsScored : Checks → Type 0
IsScored k = (is_bounce k ≡ false) × (is_reply k ≡ false) × (is_system k ≡ false)

-- When an email is in each category, and when in none.
pub record IsSorted (k : Checks) (category : Option Category) : Type 0 where
  pub bounced : (category ≡ some bounce) ↔ (is_bounce k ≡ true)
  pub replied : (category ≡ some auto_reply) ↔ ((is_bounce k ≡ false) × (is_reply k ≡ true))
  pub known :
      (category ≡ some system)
      ↔ ((is_bounce k ≡ false) × (is_reply k ≡ false) × (is_system k ≡ true))
  pub marketed : (category ≡ some marketing) ↔ (IsScored k × (3 ≤ count (marketing_indicators k)))
  pub lettered :
      (category ≡ some newsletter)
      ↔ (IsScored k × (count (marketing_indicators k) < 3) × (looks_newsletter k ≡ true))

-- the category, with the scores as counts
abbrev pub sorted : Bool → Bool → Bool → Bool → Bool → Option Category
sorted true _ _ _ _ = some bounce
sorted false true _ _ _ = some auto_reply
sorted false false true _ _ = some system
sorted false false false true _ = some marketing
sorted false false false false true = some newsletter
sorted false false false false false = none

scored-category :
    (k : Checks)
    → (scored k).category
      ≡ sorted false false false (leb 3 (count (marketing_indicators k))) (looks_newsletter k)
unfolding scored
scored-category k = rw (sym (marketing_reached k), sym (newsletter_reached k)) (ground arith)

decide-category :
    (k : Checks)
    → (decide k).category
      ≡ sorted
          (k.bounced_sender || k.bounced_subject)
          (k.suppressed || k.replied_subject)
          (k.known_domain || k.known_subject)
          (leb 3 (count (marketing_indicators k)))
          (looks_newsletter k)
unfolding decide
decide-category k =
    by_cases k.bounced_sender k.bounced_subject k.suppressed k.replied_subject k.known_domain
      k.known_subject
  where
    by_cases :
        (a b c d e f : Bool)
        → (decide (record k {
          bounced_sender = a;
          bounced_subject = b;
          suppressed = c;
          replied_subject = d;
          known_domain = e;
          known_subject = f;
        })).category
          ≡ sorted
              (a || b)
              (c || d)
              (e || f)
              (leb 3 (count (marketing_indicators k)))
              (looks_newsletter k)
    by_cases true b c d e f = refl
    by_cases false true c d e f = refl
    by_cases false false true d e f = refl
    by_cases false false false true e f = refl
    by_cases false false false false true f = refl
    by_cases false false false false false true = refl
    by_cases false false false false false false = scored-category k

of_tests :
    (k : Checks) (b r s m n : Bool)
    → is_bounce k ≡ b
    → is_reply k ≡ r
    → is_system k ≡ s
    → leb 3 (count (marketing_indicators k)) ≡ m
    → looks_newsletter k ≡ n
    → IsSorted k (sorted b r s m n)
of_tests k true r s m n eb er es em en = record {
  bounced = grind arith;
  replied = grind arith;
  known = grind arith;
  marketed = grind arith;
  lettered = grind arith;
}
of_tests k false true s m n eb er es em en = record {
  bounced = grind arith;
  replied = grind arith;
  known = grind arith;
  marketed = grind arith;
  lettered = grind arith;
}
of_tests k false false true m n eb er es em en = record {
  bounced = grind arith;
  replied = grind arith;
  known = grind arith;
  marketed = grind arith;
  lettered = grind arith;
}
of_tests k false false false true n eb er es em en = record {
  bounced = grind arith;
  replied = grind arith;
  known = grind arith;
  marketed = grind arith;
  lettered = grind arith;
}
of_tests k false false false false true eb er es em en = record {
  bounced = grind arith;
  replied = grind arith;
  known = grind arith;
  marketed = grind arith;
  lettered = grind arith;
}
of_tests k false false false false false eb er es em en = record {
  bounced = grind arith;
  replied = grind arith;
  known = grind arith;
  marketed = grind arith;
  lettered = grind arith;
}

-- The category of every email: a bounce by its sender or subject; else an automatic reply by its
-- header or subject; else a system mail by its domain or subject; else marketing exactly when at least
-- three of the four indicators (an unsubscribe header, a marketing platform, the sender's pattern,
-- marketing words) are there; else a newsletter exactly when its precedence is bulk, or it has an
-- unsubscribe header, the sender's pattern and newsletter words; else none.
pub pre_filter_email-IsSorted :
    (re_search : Text → Text → Bool) (e : Email)
    → IsSorted (checks re_search e) (pre_filter_email re_search e).category
unfolding pre_filter_email
pre_filter_email-IsSorted re_search e =
    let k = checks re_search e in
    rw (decide-category k) (
      of_tests k (is_bounce k) (is_reply k) (is_system k) (leb 3 (count (marketing_indicators k)))
        (looks_newsletter k) refl refl refl refl refl)
