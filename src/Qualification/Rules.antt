-- ===== src/Qualification/Rules.antt =====
-- The five groups of signals, `_score_email_category` to `_score_negative`. Each collects its points
-- and its signals, in order.
pub mod Balance
use enterprise_ai_sales_orch.Prelude.{
  String, ℕ, zero, suc, ◌+◌, ◌≤◌, Bool, true, false, ◌&&◌, ◌||◌, not, Option, none, some, List, [],
  ◌∷◌, ◌++◌, map, leb, ltb, if◌then◌else◌, any, length, keep,
}
use enterprise_ai_sales_orch.Prelude.Int.{ℤ, pos, negsuc, ◌+ℤ◌, ◌-ℤ◌}
use enterprise_ai_sales_orch.Prelude.Text.{
  decimal, Text, codes, lower, occurs, truthy, text_eq, listed, before, after, join_spaces, or_text,
  or_empty,
}
use enterprise_ai_sales_orch.Qualification.Data.{
  get_or, QualificationConfig, Signal, Format, plus, signed, bare,
}
use enterprise_ai_sales_orch.Qualification.Input.{Lead, Message, Classification}

-- the running `score` and `signals`
pub record Tally : Type 0 where
  pub score : ℤ
  pub signals : List Signal

unfoldable pub empty : Tally
empty = record { score = pos 0; signals = [] }

-- `score += points; signals.append(…)`
unfoldable pub add : Signal → Tally → Tally
add s t = record { score = t.score +ℤ s.points; signals = t.signals ++ s ∷ [] }

unfoldable pub add_if : Bool → Signal → Tally → Tally
unfolding add
add_if b s t = if b then add s t else t

-- a signal with no detail, with its points after a plus sign
abbrev pub plain : Text → ℤ → Signal
plain name points = record { name = name; details = []; format = plus; points = points }

abbrev pub detailed : Text → Text → Format → ℤ → Signal
detailed name detail format points = record {
  name = name;
  details = detail ∷ [];
  format = format;
  points = points;
}

weight_of : Text → List (Text × ℤ) → Option ℤ
weight_of c [] = none
weight_of c ((d, z) ∷ ws) = if text_eq c d then some z else weight_of c ws

add_category : Text → Option ℤ → Tally → Tally
add_category c none t = t
add_category c (some z) t = add (detailed (codes "email_category") c signed z) t

add_confidence : Text → Option (ℕ × Text) → Tally → Tally
add_confidence c none t = t
add_confidence c (some (hundredths, shown)) t =
    add_if
      (leb 90 hundredths && (text_eq c (codes "business_inquiry") || text_eq c (codes "personal")))
      (detailed (codes "high_confidence") shown plus (pos 5)) t

pub score_email_category : QualificationConfig → Classification → Tally
score_email_category cfg c =
    let category = lower (or_empty c.category) in
    add_confidence category c.confidence
      (add_category category (weight_of category cfg.email_category) empty)

-- the messages' contents in lower case, with spaces between
unfoldable pub all_content : List Message → Text
all_content ms = join_spaces (map (λ m. lower m.content) ms)

abbrev pub mentions : List Text → Text → Bool
mentions keywords content = any (λ k. occurs k content) keywords

is_inbound : Message → Bool
is_inbound m = text_eq m.direction (codes "inbound")

-- `_score_conversation`, of messages of which there is one at least
score_messages : QualificationConfig → List Message → Text → Tally
unfolding all_content is_inbound
score_messages cfg ms lead_source =
    let w = cfg.conversation in
    let content = all_content ms in
    let replied =
      ltb 0 (length (keep is_inbound ms))
      && listed lead_source (codes "leads" ∷ codes "staging_leads" ∷ []) in
    let t1 = add_if replied (plain (codes "has_reply") (get_or w.has_reply (pos 15))) empty in
    let t2 =
      add_if (leb 3 (length ms))
        (detailed (codes "multiple_messages") (decimal (length ms)) plus
          (get_or w.multiple_messages (pos 10)))
        t1 in
    let t3 =
      add_if (occurs (codes "?") content)
        (plain (codes "asked_question") (get_or w.asked_question (pos 10))) t2 in
    let t4 =
      add_if (mentions cfg.budget_keywords content)
        (plain (codes "mentioned_budget") (get_or w.mentioned_budget (pos 15))) t3 in
    let t5 =
      add_if (mentions cfg.timeline_keywords content)
        (plain (codes "mentioned_timeline") (get_or w.mentioned_timeline (pos 10))) t4 in
    add_if (mentions cfg.meeting_keywords content)
      (plain (codes "requested_meeting") (get_or w.requested_meeting (pos 20))) t5

pub score_conversation : QualificationConfig → List Message → Text → Tally
unfolding score_messages
score_conversation cfg [] lead_source = empty
score_conversation cfg (m ∷ ms) lead_source = score_messages cfg (m ∷ ms) lead_source

-- `a or b`, as a test
either : Option Text → Option Text → Bool
either a b = truthy (or_empty a) || truthy (or_empty b)

-- the part of `_score_profile` under `if title`
score_title : QualificationConfig → Text → Tally → Tally
score_title cfg title t =
    if truthy title
    then add_if (mentions cfg.decision_maker_titles title)
        (detailed (codes "decision_maker_title") title plus
          (get_or cfg.profile.decision_maker_title (pos 15)))
        (add (plain (codes "has_title") (get_or cfg.profile.has_title (pos 5))) t)
    else t

-- the part of `_score_profile` under `if "@" in email`
score_domain : QualificationConfig → Text → Tally → Tally
score_domain cfg email t =
    let domain = lower (before b'@' (after b'@' email)) in
    add_if (occurs (codes "@") email && not (listed domain cfg.freemail_domains))
      (detailed (codes "known_domain") domain plus (get_or cfg.profile.known_domain (pos 10))) t

pub score_profile : QualificationConfig → Lead → Tally
unfolding either
score_profile cfg l =
    let w = cfg.profile in
    let title = lower (or_text (or_empty l.job_title) (or_empty l.title)) in
    let t1 =
      add_if (either l.company_name l.company)
        (plain (codes "has_company") (get_or w.has_company (pos 10))) empty in
    let t2 = score_title cfg title t1 in
    let t3 =
      add_if (either l.phone_number l.phone)
        (plain (codes "has_phone") (get_or w.has_phone (pos 5))) t2 in
    let t4 =
      add_if (either l.linkedin_url l.linkedin)
        (plain (codes "has_linkedin") (get_or w.has_linkedin (pos 5))) t3 in
    score_domain cfg (or_empty l.email) t4

pub score_engagement : QualificationConfig → Text → Text → Tally
score_engagement cfg lead_source email_direction =
    let w = cfg.engagement in
    let inbound = text_eq email_direction (codes "inbound") in
    let t1 =
      add_if (text_eq lead_source (codes "new") && inbound)
        (plain (codes "first_contact_inbound") (get_or w.first_contact_inbound (pos 10))) empty in
    add_if (text_eq lead_source (codes "leads") && inbound)
      (plain (codes "campaign_reply") (get_or w.campaign_reply (pos 25))) t1

abbrev bare_signal : String → ℤ → Signal
bare_signal name points = record { name = codes name; details = []; format = bare; points = points }

-- the signal of a keyword that has been found
negative_signal : QualificationConfig → Text → Signal
negative_signal cfg kw =
    let w = cfg.negative in
    if occurs (codes "unsubscribe") kw || occurs (codes "remove") kw || occurs (codes "stop") kw
    then bare_signal "unsubscribe_request" (get_or w.unsubscribe_request (negsuc 29))
    else if occurs (codes "not interested") kw || occurs (codes "no thanks") kw
    then bare_signal "not_interested" (get_or w.not_interested (negsuc 24))
    else if occurs (codes "wrong") kw || occurs (codes "not the right") kw
    then bare_signal "wrong_contact" (get_or w.wrong_contact (negsuc 19))
    else if occurs (codes "competitor") kw
    then bare_signal "competitor" (get_or w.competitor (negsuc 14))
    else detailed (codes "negative_keyword") kw bare (negsuc 9)

-- the loop over the keywords, which stops at the first that is found
first_negative : QualificationConfig → Text → List Text → Tally
first_negative cfg content [] = empty
first_negative cfg content (kw ∷ kws) =
    if occurs kw content then add (negative_signal cfg kw) empty else first_negative cfg content kws

pub score_negative : QualificationConfig → List Message → Tally
unfolding all_content
score_negative cfg [] = empty
score_negative cfg (m ∷ ms) = first_negative cfg (all_content (m ∷ ms)) cfg.not_interested_keywords

-- The names that a run of the groups unfolds.
unfoldable pub rules : Unit {0}
unfolding score_email_category score_conversation score_profile score_engagement score_negative
    weight_of add_category add_confidence score_title score_domain first_negative negative_signal
    add_if empty
rules = tt
