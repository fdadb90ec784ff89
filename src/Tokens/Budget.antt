-- ===== src/Tokens/Budget.antt =====
-- The sums of a token budget.
use enterprise_ai_sales_orch.Prelude.{
  refl, ℕ, ◌+◌, ◌≡◌, true, false, List, [], ◌∷◌, arith, if◌then◌else◌,
}
use enterprise_ai_sales_orch.Prelude.Text.{Text, text_eq}
use enterprise_ai_sales_orch.Tokens.{
  TokenBudget, total, remaining, is_exceeded, set_item, sum_values, content_tokens, Content, add,
}

-- The tokens under a name, or 0.
unfoldable pub tokens_of : Text → List (Text × ℕ) → ℕ
tokens_of k [] = 0
tokens_of k ((j, n) ∷ items) = if text_eq k j then n else tokens_of k items

sum_values-set_item :
    (k : Text) (n : ℕ) (items : List (Text × ℕ))
    → sum_values (set_item k n items) + tokens_of k items ≡ sum_values items + n
unfolding sum_values set_item tokens_of
sum_values-set_item k n [] = omega arith
sum_values-set_item k n ((j, m) ∷ items) = ground (arith, sum_values-set_item k n items)

-- Adding content under a name returns its tokens and replaces what the name had: the total changes by
-- the difference, and never counts one name twice.
total-add :
    (k overhead : ℕ) (name : Text) (content : Content) (b : TokenBudget)
    → let (tokens, b') = add k overhead name content b in
      (tokens ≡ content_tokens k overhead content)
      × (b'.max_tokens ≡ b.max_tokens)
      × (total b' + tokens_of name b.items ≡ total b + tokens)
unfolding add total
total-add k overhead name content b =
    (refl, refl, sum_values-set_item name (content_tokens k overhead content) b.items)

-- A budget that is not exceeded is split into what is used and what remains; of one that is, nothing
-- remains.
remaining_lem :
    (b : TokenBudget)
    → (is_exceeded b ≡ false → remaining b + total b ≡ b.max_tokens)
      × (is_exceeded b ≡ true → remaining b ≡ 0)
unfolding remaining is_exceeded
remaining_lem b = ground arith
