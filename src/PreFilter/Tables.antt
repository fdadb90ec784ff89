-- ===== src/PreFilter/Tables.antt =====
-- services/email/pre_filter.py: the tables of senders, domains and patterns.
use enterprise_ai_sales_orch.Prelude.{List, [], ◌∷◌}
use enterprise_ai_sales_orch.Prelude.Text.{Text, codes}

unfoldable pub bounce_senders : List Text
bounce_senders = codes "mailer-daemon" ∷ codes "postmaster" ∷ codes "mail-daemon" ∷ []

unfoldable pub marketing_platform_domains : List Text
marketing_platform_domains =
    codes "mailchimp.com"
    ∷ codes "mailgun.org"
    ∷ codes "sendgrid.net"
    ∷ codes "sparkpostmail.com"
    ∷ codes "sparkpost.com"
    ∷ codes "postmarkapp.com"
    ∷ codes "mandrillapp.com"
    ∷ codes "intercom-mail.com"
    ∷ codes "hubspot.com"
    ∷ codes "customeriomail.com"
    ∷ codes "iterable.com"
    ∷ []

unfoldable pub system_domains : List Text
system_domains =
    codes "stripe.com"
    ∷ codes "paypal.com"
    ∷ codes "github.com"
    ∷ codes "gitlab.com"
    ∷ codes "atlassian.net"
    ∷ codes "atlassian.com"
    ∷ codes "jira.com"
    ∷ codes "slack.com"
    ∷ codes "zoom.us"
    ∷ codes "google.com"
    ∷ codes "googleapis.com"
    ∷ codes "apple.com"
    ∷ codes "microsoft.com"
    ∷ codes "linkedin.com"
    ∷ codes "twitter.com"
    ∷ codes "x.com"
    ∷ codes "facebook.com"
    ∷ codes "instagram.com"
    ∷ codes "reddit.com"
    ∷ codes "reddit.io"
    ∷ []

unfoldable pub marketing_sender_patterns : List Text
marketing_sender_patterns =
    codes "newsletter@"
    ∷ codes "marketing@"
    ∷ codes "promo@"
    ∷ codes "offers@"
    ∷ codes "deals@"
    ∷ codes "updates@"
    ∷ codes "digest@"
    ∷ codes "weekly@"
    ∷ codes "daily@"
    ∷ codes "notifications?@"
    ∷ codes "campaigns?@"
    ∷ codes "productmarketing@"
    ∷ []

unfoldable pub marketing_keywords : List Text
marketing_keywords =
    codes "\\b(unsubscribe|opt\\s?out)\\b"
    ∷ codes "\\b(offer|deal|sale|discount|%\\s?off|save\\s+\\$|promo\\s?code|coupon)\\b"
    ∷ codes "\\b(limited\\s*time|last\\s+chance|ends\\s+today|today\\s+only)\\b"
    ∷ codes "\\b(redeem|claim\\s+now|buy\\s+now|upgrade\\s+now|get\\s+started)\\b"
    ∷ codes "\\b(webinar|roundtable|live\\s+soon|join\\s+us\\s+live)\\b"
    ∷ codes "utm_(source|medium|campaign)="
    ∷ []

unfoldable pub newsletter_keywords : List Text
newsletter_keywords =
    codes "\\b(weekly|daily|monthly)\\b"
    ∷ codes "\\b(digest|newsletter|update|product\\s+update)\\b"
    ∷ []

unfoldable pub system_subject_patterns : List Text
system_subject_patterns =
    codes "order\\s+(confirmation|shipped|delivered)"
    ∷ codes "your\\s+(order|receipt|invoice|payment)"
    ∷ codes "password\\s+(reset|changed|updated)"
    ∷ codes "verify\\s+your\\s+(email|account)"
    ∷ codes "account\\s+(created|activated|suspended)"
    ∷ codes "security\\s+alert"
    ∷ codes "login\\s+(attempt|notification)"
    ∷ codes "two-factor|2fa|mfa"
    ∷ codes "subscription\\s+(confirmed|cancelled|renewed)"
    ∷ codes "security\\s+advisor"
    ∷ codes "share\\s+request\\b"
    ∷ codes "requests?\\s+access\\b"
    ∷ codes "action\\s+required\\b"
    ∷ codes "welcome\\s+to\\s+"
    ∷ codes "thank\\s+you\\s+for\\s+(signing|registering|subscribing)"
    ∷ []

unfoldable pub auto_reply_subject_patterns : List Text
auto_reply_subject_patterns =
    codes "^(re:\\s*)?out\\s+of\\s+(the\\s+)?office"
    ∷ codes "^(re:\\s*)?automatic\\s+reply"
    ∷ codes "^(re:\\s*)?auto[\\-\\s]?reply"
    ∷ codes "^(re:\\s*)?away\\s+from\\s+(my\\s+)?(desk|office|email)"
    ∷ codes "^(re:\\s*)?vacation\\s+(reply|response)"
    ∷ codes "^(re:\\s*)?i('m|\\s+am)\\s+(currently\\s+)?(out|away|on\\s+leave)"
    ∷ codes "^(re:\\s*)?will\\s+be\\s+out"
    ∷ codes "delivery\\s+(status|failure)\\s+notification"
    ∷ codes "undeliverable"
    ∷ codes "mail\\s+delivery\\s+(failed|error)"
    ∷ []

unfoldable pub bounce_subject_patterns : List Text
bounce_subject_patterns =
    codes "delivery\\s+(status|failure)\\s+notification"
    ∷ codes "undeliverable"
    ∷ codes "mail\\s+delivery\\s+(failed|error|subsystem)"
    ∷ codes "returned\\s+mail"
    ∷ codes "failure\\s+notice"
    ∷ codes "message\\s+not\\s+delivered"
    ∷ []
