-- ===== src/Tokens/Tests.antt =====
-- Runs of the token utilities at concrete inputs.
use enterprise_ai_sales_orch.Prelude.{ℕ, ◌≡◌, true, [], ◌∷◌, refl}
use enterprise_ai_sales_orch.Prelude.Text.{Text, codes}
use enterprise_ai_sales_orch.Tokens.{TokenBudget, estimate_tokens, truncate_messages_by_tokens}
use enterprise_ai_sales_orch.Tokens.Truncation.{IsLongestRecent, truncate-IsLongestRecent}

abbrev cost : ℕ → ℕ
cost n = n

keeps_recent : truncate_messages_by_tokens cost 10 true (6 ∷ 2 ∷ 5 ∷ 3 ∷ []) ≡ 2 ∷ 5 ∷ 3 ∷ []
unfolding truncate_messages_by_tokens
keeps_recent = refl

-- the default suffix
abbrev suffix : Text
suffix = codes "\n\n[...truncated...]"

abbrev words : Text
words = codes "a text of more than nineteen characters"

estimate_words : estimate_tokens 4 words ≡ 9
unfolding estimate_tokens
estimate_words = refl

truncate-IsLongestRecent_example :
    IsLongestRecent cost 10
      (6 ∷ 2 ∷ 5 ∷ [])
      (truncate_messages_by_tokens cost 10 true (6 ∷ 2 ∷ 5 ∷ []))
truncate-IsLongestRecent_example = truncate-IsLongestRecent cost 10 (6 ∷ 2 ∷ 5 ∷ [])

abbrev budget : TokenBudget
budget = record { max_tokens = 20; items = (codes "lead", 5) ∷ [] }
