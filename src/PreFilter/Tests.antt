-- ===== src/PreFilter/Tests.antt =====
-- Runs of the filter at concrete emails, with a search that finds a pattern in no text, or one that
-- finds every pattern in texts that are not empty.
use enterprise_ai_sales_orch.Prelude.{Bool, none, some, refl, ◌≡◌}
use enterprise_ai_sales_orch.Prelude.Text.{Text, codes, text_eq}
use enterprise_ai_sales_orch.PreFilter.{
  Email, pre_filter_email, checks, bounce, marketing, newsletter,
}
use enterprise_ai_sales_orch.PreFilter.Verdict.{pre_filter_email-IsSorted, IsSorted}

-- finds the words of an offer in every text, and nothing else
abbrev offers : Text → Text → Bool
offers pattern text = text_eq pattern (codes "utm_(source|medium|campaign)=")

abbrev promotion : Email
promotion = record {
  from_email = codes "Ann@Example.org";
  subject = some (codes " Hello ");
  body = none;
  list_unsubscribe = some (codes "<mailto:x>");
  precedence = none;
  auto_response_suppress = none;
}

-- The unsubscribe header with the words of marketing is in no category.
promotion_passes : (pre_filter_email offers promotion).category ≡ none
unfolding pre_filter_email
promotion_passes = refl

-- From a marketing platform, it is marketing.
platform_caught :
    (pre_filter_email offers
      (record promotion { from_email = codes "ann@mail@Mailchimp.com" })).category
    ≡ some marketing
unfolding pre_filter_email
platform_caught = refl

bulk_caught :
    (pre_filter_email offers (record promotion { precedence = some (codes "Bulk") })).category
    ≡ some newsletter
unfolding pre_filter_email
bulk_caught = refl

daemon_caught :
    (pre_filter_email offers
      (record promotion { from_email = codes "MAILER-DAEMON@x.com" })).category
    ≡ some bounce
unfolding pre_filter_email
daemon_caught = refl

pre_filter_email-IsSorted_example :
    IsSorted (checks offers promotion) (pre_filter_email offers promotion).category
pre_filter_email-IsSorted_example = pre_filter_email-IsSorted offers promotion
