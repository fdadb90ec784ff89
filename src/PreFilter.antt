-- ===== src/PreFilter.antt =====
-- services/email/pre_filter.py. `re_search` is `re.search` with `IGNORECASE`, the pattern first. Scores
-- and confidences are binary64 numbers in units of 2 ^ -56.
pub mod Float
pub mod Tables
pub mod Scores
pub mod Verdict
pub mod Confidence
mod Tests
use enterprise_ai_sales_orch.Prelude.{
  ℕ, ◌==◌, leb, min, Bool, true, false, ◌||◌, Option, none, some, List, [], ◌∷◌, ◌++◌, any, reverse,
  if◌then◌else◌,
}
use enterprise_ai_sales_orch.Prelude.Text.{
  Text, codes, lower, strip, before, truthy, listed, or_empty,
}
use enterprise_ai_sales_orch.PreFilter.Float.{add_float}
use enterprise_ai_sales_orch.PreFilter.Tables.{
  bounce_senders, marketing_platform_domains, system_domains, marketing_sender_patterns,
  marketing_keywords, newsletter_keywords, system_subject_patterns, auto_reply_subject_patterns,
  bounce_subject_patterns,
}

pub data Category : Type 0 where
  bounce auto_reply system marketing newsletter : Category

-- an entry of `reasons`, with the value that it shows
pub data Indicator : Type 0 where
  precedence_is : Text → Indicator
  list_unsubscribe_present : Indicator
  marketing_platform : Text → Indicator
  sender_pattern : Indicator
  marketing_words : Indicator
  newsletter_words : Indicator

-- the texts of the results
pub data Reason : Type 0 where
  bounce_sender : Text → Reason
  bounce_subject : Reason
  suppress_header : Text → Reason
  auto_reply_subject : Reason
  system_domain : Text → Reason
  system_subject : Reason
  indicators : List Indicator → Reason
  no_match : Reason

pub record PreFilterResult : Type 0 where
  pub category : Option Category
  pub confidence : ℕ
  pub reason : Reason

-- the arguments that `pre_filter_email` reads
pub record Email : Type 0 where
  pub from_email : Text
  pub subject : Option Text
  pub body : Option Text
  pub list_unsubscribe : Option Text
  pub precedence : Option Text
  pub auto_response_suppress : Option Text

abbrev pub matched : Category → ℕ → Reason → PreFilterResult
matched c confidence reason = record { category = some c; confidence = confidence; reason = reason }

normalize : Option Text → Text
normalize s = strip (lower (or_empty s))

matches_any : (Text → Text → Bool) → Text → List Text → Bool
matches_any re_search text patterns = any (λ p. re_search p text) patterns

has_at : Text → Bool
has_at s = any (λ c. c == 64) s

extract_sender_local : Text → Text
unfolding has_at
extract_sender_local s = if has_at s then lower (before 64 s) else lower s

-- the last part of `split`, behind the characters kept so far
last_part : ℕ → Text → Text → Text
last_part c kept [] = reverse kept
last_part c kept (d ∷ s) = last_part c (if c == d then [] else d ∷ kept) s

extract_domain : Text → Text
unfolding has_at last_part
extract_domain s = if has_at s then lower (last_part 64 [] s) else []

-- What the rules ask of an email.
pub record Checks : Type 0 where
  pub sender_local : Text
  pub sender_domain : Text
  pub prec_norm : Text
  pub suppress : Text
  pub bounced_sender : Bool
  pub bounced_subject : Bool
  pub suppressed : Bool
  pub replied_subject : Bool
  pub known_domain : Bool
  pub known_subject : Bool
  pub bulk : Bool
  pub unsubscribe : Bool
  pub platform : Bool
  pub sender : Bool
  pub marketing_text : Bool
  pub newsletter_text : Bool

unfoldable pub checks : (Text → Text → Bool) → Email → Checks
unfolding normalize matches_any extract_sender_local extract_domain bounce_senders
    marketing_platform_domains system_domains marketing_sender_patterns marketing_keywords
    newsletter_keywords system_subject_patterns auto_reply_subject_patterns bounce_subject_patterns
checks re_search e =
    let from_email_norm = normalize (some e.from_email) in
    let subject_norm = normalize e.subject in
    let body_norm = normalize e.body in
    let sender_local = extract_sender_local from_email_norm in
    let sender_domain = extract_domain from_email_norm in
    let prec_norm = normalize e.precedence in
    record {
      sender_local = sender_local;
      sender_domain = sender_domain;
      prec_norm = prec_norm;
      suppress = or_empty e.auto_response_suppress;
      bounced_sender = listed sender_local bounce_senders;
      bounced_subject = matches_any re_search subject_norm bounce_subject_patterns;
      suppressed = truthy (or_empty e.auto_response_suppress);
      replied_subject = matches_any re_search subject_norm auto_reply_subject_patterns;
      known_domain = listed sender_domain system_domains;
      known_subject = matches_any re_search subject_norm system_subject_patterns;
      bulk = listed prec_norm (codes "bulk" ∷ codes "list" ∷ codes "junk" ∷ []);
      unsubscribe = truthy (or_empty e.list_unsubscribe);
      platform = listed sender_domain marketing_platform_domains;
      sender = matches_any re_search from_email_norm marketing_sender_patterns;
      marketing_text =
          matches_any re_search subject_norm marketing_keywords
          || matches_any re_search body_norm marketing_keywords;
      newsletter_text =
          matches_any re_search subject_norm newsletter_keywords
          || matches_any re_search body_norm newsletter_keywords;
    }

add_score : Bool → ℕ → ℕ → ℕ
unfolding add_float
add_score b weight score = if b then add_float score weight else score

-- 0.0 with the weights 0.30, 0.25, 0.25 and 0.35 of the indicators, in this order
unfoldable pub marketing_score : Checks → ℕ
unfolding add_score
marketing_score k = add_score k.marketing_text 25220157913274776 (
    add_score k.sender 18014398509481984
      (add_score k.platform 18014398509481984 (add_score k.unsubscribe 21617278211378380 0)))

-- 0.0 with 0.65, 0.30, 0.10 and 0.25
unfoldable pub newsletter_score : Checks → ℕ
unfolding add_score
newsletter_score k = add_score k.newsletter_text 18014398509481984 (
    add_score k.sender 7205759403792794
      (add_score k.unsubscribe 21617278211378380 (add_score k.bulk 46837436124653160 0)))

listed_if : Bool → Indicator → List Indicator
listed_if b i = if b then i ∷ [] else []

unfoldable pub reasons : Checks → List Indicator
unfolding listed_if
reasons k =
    listed_if k.bulk (precedence_is k.prec_norm)
    ++ listed_if k.unsubscribe list_unsubscribe_present
    ++ listed_if k.platform (marketing_platform k.sender_domain)
    ++ listed_if k.sender sender_pattern
    ++ listed_if k.marketing_text marketing_words
    ++ listed_if k.newsletter_text newsletter_words

-- steps 4 and 5, with the thresholds 0.65 and 0.60; the confidence is at most 0.95 or 0.90
unfoldable pub scored : Checks → PreFilterResult
unfolding marketing_score newsletter_score reasons add_float
scored k =
    if leb 46837436124653160 (marketing_score k)
    then matched marketing (min 68454714336031536 (add_float 39631676720860368 (marketing_score k)))
        (indicators (reasons k))
    else if leb 43234556422756760 (newsletter_score k)
    then matched newsletter
        (min 64851834634135144 (add_float 36028797018963968 (newsletter_score k)))
        (indicators (reasons k))
    else record { category = none; confidence = 0; reason = no_match }

-- the sequence of the rules, with the confidences 0.95, 0.90, 0.95, 0.85, 0.85 and 0.80
unfoldable pub decide : Checks → PreFilterResult
unfolding scored
decide k =
    if k.bounced_sender
    then matched bounce 68454714336031536 (bounce_sender k.sender_local)
    else if k.bounced_subject
    then matched bounce 64851834634135144 bounce_subject
    else if k.suppressed
    then matched auto_reply 68454714336031536 (suppress_header k.suppress)
    else if k.replied_subject
    then matched auto_reply 61248954932238744 auto_reply_subject
    else if k.known_domain
    then matched system 61248954932238744 (system_domain k.sender_domain)
    else if k.known_subject
    then matched system 57646075230342352 system_subject
    else scored k

unfoldable pub pre_filter_email : (Text → Text → Bool) → Email → PreFilterResult
unfolding checks decide
pre_filter_email re_search e = decide (checks re_search e)
