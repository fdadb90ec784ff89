-- ===== src/Sequencer/Guards.antt =====
-- tiers/tier_3/channel_sequencer_agent/channel_sequencer_agent.py: what stops an email.
use enterprise_ai_sales_orch.Prelude.{
  ℕ, ◌==◌, ltb, Bool, false, ◌||◌, Option, none, some, List, [], ◌∷◌, map, keep, reverse,
  if◌then◌else◌,
}
use enterprise_ai_sales_orch.Prelude.Text.{Text, codes, lower, strip, truthy, occurs}
use enterprise_ai_sales_orch.Harness.Retry.{returned}
use enterprise_ai_sales_orch.Sequencer.{
  Value, text, texts, Dict, get, is_true, or_else, SequenceStep, SequenceRequest, Reason, hard_stop,
  hard_stop_keyword, hour_limit, new_thread_limit, Settings, Services, Action, ◌>>=◌, pure,
}

-- the keys of `flag_keys`, in the order of their text: the set's own order is not determined
abbrev flag_keys : List Text
flag_keys =
    codes "do_not_contact"
    ∷ codes "unsubscribe"
    ∷ codes "stop"
    ∷ codes "legal_threat"
    ∷ codes "abusive"
    ∷ codes "sensitive"
    ∷ codes "angry"
    ∷ []

-- the first flag that is set in either dictionary
first_flag : Dict → Dict → List Text → Option Reason
first_flag metadata context [] = none
first_flag metadata context (k ∷ ks) =
    if is_true (get k metadata) || is_true (get k context)
    then some (hard_stop k)
    else first_flag metadata context ks

first_reason : Value → Option Reason
first_reason (texts (t ∷ ts)) = some (hard_stop t)
first_reason _ = none

-- `s.split(",")`, with the part that is being read
split_commas : Text → Text → List Text
split_commas part [] = reverse part ∷ []
split_commas part (c ∷ s) =
    let rest = split_commas [] s in
    let longer = split_commas (c ∷ part) s in if c == 44 then reverse part ∷ rest else longer

keywords : Text → List Text
unfolding split_commas
keywords s = map (λ k. lower (strip k)) (keep (λ k. truthy (strip k)) (split_commas [] s))

first_keyword : Text → List Text → Option Reason
first_keyword lowered [] = none
first_keyword lowered (k ∷ ks) =
    if occurs k lowered then some (hard_stop_keyword k) else first_keyword lowered ks

keyword_reason : List Text → Value → Option Reason
unfolding first_keyword
keyword_reason ks (text (c ∷ s)) = first_keyword (lower (c ∷ s)) ks
keyword_reason ks _ = none

-- the first of three that is there
first_of : Option Reason → Option Reason → Option Reason → Option Reason
first_of (some r) b c = some r
first_of none (some r) c = some r
first_of none none c = c

unfoldable pub hard_stop_reason : Settings → SequenceStep → SequenceRequest → Option Reason
unfolding get is_true or_else first_flag first_reason keywords keyword_reason first_of
hard_stop_reason settings step request =
    first_of (first_flag step.metadata request.context flag_keys)
      (first_reason (
        or_else (get (codes "hard_stop_reasons") step.metadata)
          (get (codes "hard_stop_reasons") request.context)))
      (keyword_reason (keywords settings.hard_stop_keywords) (
        or_else (get (codes "last_inbound_snippet") step.metadata)
          (get (codes "last_inbound_snippet") request.context)))

module _ {W : Type 0} (settings : Settings) (services : Services W) where
  -- one counter of `_throttle_check`, if its limit is set
  unfoldable pub over_limit : ℕ → (W → Text) → Action W Bool
  over_limit limit key w =
      if ltb 0 limit
      then (services.incr (key w) >>= λ count. pure (ltb limit count)) w
      else (returned false, w)

  unfoldable pub thread_check : Text → Action W (Option Reason)
  thread_check tenant_id = do
    over ← over_limit settings.max_new_threads (services.day_key tenant_id)
    pure (if over then some new_thread_limit else none)

  unfoldable pub limits : Text → Bool → Action W (Option Reason)
  limits tenant_id is_new_thread = do
    over ← over_limit settings.max_per_hour (services.hour_key tenant_id)
    if over
        then pure (some hour_limit)
        else if is_new_thread
        then thread_check tenant_id
        else pure none

  unfoldable pub throttle_check : Text → Bool → Action W (Option Reason)
  throttle_check tenant_id is_new_thread =
      if services.has_redis then limits tenant_id is_new_thread else pure none
