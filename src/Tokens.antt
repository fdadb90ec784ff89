-- ===== src/Tokens.antt =====
-- core/tokens.py: token estimates, truncation to a budget, and `TokenBudget`. The number of characters
-- to a token is a natural number, and `int(n / k)` the division that rounds down.
pub mod Truncation
pub mod Budget
mod Tests
use enterprise_ai_sales_orch.Prelude.{
  ℕ, zero, suc, ◌+◌, ◌-◌, ◌*◌, ◌/◌, Bool, true, false, Option, none, some, List, [], ◌∷◌, ◌++◌,
  reverse, max, ltb, leb, if◌then◌else◌, length, take,
}
use enterprise_ai_sales_orch.Prelude.Int.{ℤ, pos, negsuc, ◌-ℤ◌}
use enterprise_ai_sales_orch.Prelude.Text.{Text, codes, truthy, text_eq}

-- a value of a message: a text, or what counts as true and is no text; `none` counts as false
pub data Field : Type 0 where
  text : Text → Field
  other : Field

pub record Message : Type 0 where
  pub body : Option Field
  pub content : Option Field
  pub subject : Option Field

module _ (chars_per_token : ℕ) where
  unfoldable pub estimate_tokens : Text → ℕ
  estimate_tokens [] = 0
  estimate_tokens (c ∷ s) = max 1 (length (c ∷ s) / chars_per_token)

  -- `a or b`
  first_true : Option Field → Option Field → Option Field
  first_true none b = b
  first_true (some (text [])) b = b
  first_true (some (text (c ∷ s))) b = some (text (c ∷ s))
  first_true (some other) b = some other

  -- `if isinstance(v, str): tokens += estimate_tokens(v)`
  field_tokens : Option Field → ℕ
  unfolding estimate_tokens
  field_tokens none = 0
  field_tokens (some (text s)) = estimate_tokens s
  field_tokens (some other) = 0

  -- `overhead` is `DEFAULT_TOKENS_PER_MESSAGE`
  unfoldable pub estimate_message_tokens : ℕ → Message → ℕ
  unfolding first_true field_tokens
  estimate_message_tokens overhead m =
      overhead + field_tokens (first_true m.body m.content) + field_tokens m.subject + 10

-- the loop of `truncate_messages_by_tokens`, over messages with their tokens
unfoldable pub take_within {ℓ} : {A : Type ℓ} → (A → ℕ) → ℕ → ℕ → List A → List A
take_within cost max_tokens total [] = []
take_within cost max_tokens total (m ∷ ms) =
    if ltb max_tokens (total + cost m)
    then []
    else m ∷ take_within cost max_tokens (total + cost m) ms

unfoldable pub truncate_messages_by_tokens {ℓ} : {A : Type ℓ} → (A → ℕ) → ℕ → Bool → List A → List A
unfolding take_within
truncate_messages_by_tokens cost max_tokens preserve_recent messages =
    if preserve_recent
    then reverse (take_within cost max_tokens 0 (reverse messages))
    else take_within cost max_tokens 0 messages

-- `s[:n]`, where a negative `n` counts from the end
unfoldable pub slice_to : ℤ → Text → Text
slice_to (pos n) s = take n s
slice_to (negsuc n) s = take (length s - (n + 1)) s

unfoldable pub truncate_text_by_tokens : ℕ → ℕ → Text → Text → Text
unfolding estimate_tokens slice_to
truncate_text_by_tokens chars_per_token max_tokens suffix s =
    let max_chars = max_tokens * chars_per_token in
    if leb (estimate_tokens chars_per_token s) max_tokens
    then s
    else slice_to (pos max_chars -ℤ pos (length suffix)) s ++ suffix

-- `TokenBudget`; `items` maps names to tokens
pub record TokenBudget : Type 0 where
  pub max_tokens : ℕ
  pub items : List (Text × ℕ)

-- `sum(self._items.values())`
unfoldable pub sum_values : List (Text × ℕ) → ℕ
sum_values [] = 0
sum_values ((k, n) ∷ items) = n + sum_values items

unfoldable pub total : TokenBudget → ℕ
unfolding sum_values
total b = sum_values b.items

-- `max(0, self.max_tokens - self.total)`
unfoldable pub remaining : TokenBudget → ℕ
unfolding total
remaining b = b.max_tokens - total b

unfoldable pub is_exceeded : TokenBudget → Bool
unfolding total
is_exceeded b = ltb b.max_tokens (total b)

-- `self._items[name] = tokens`
unfoldable pub set_item : Text → ℕ → List (Text × ℕ) → List (Text × ℕ)
set_item k n [] = (k, n) ∷ []
set_item k n ((j, m) ∷ items) = if text_eq k j then (j, n) ∷ items else (j, m) ∷ set_item k n items

-- an item of a list: a message, or the text of another value
pub data Item : Type 0 where
  dict : Message → Item
  value : Text → Item

-- `content`: a text, a list, or another value with its JSON text, if it has one
pub data Content : Type 0 where
  text : Text → Content
  items : List Item → Content
  json : Option Text → Content

module _ (chars_per_token overhead : ℕ) where
  item_tokens : Item → ℕ
  unfolding estimate_message_tokens
  item_tokens (dict m) = estimate_message_tokens chars_per_token overhead m
  item_tokens (value s) = estimate_tokens chars_per_token s

  sum_items : List Item → ℕ
  unfolding item_tokens
  sum_items [] = 0
  sum_items (i ∷ is) = item_tokens i + sum_items is

  unfoldable pub content_tokens : Content → ℕ
  unfolding estimate_tokens sum_items
  content_tokens (text s) = estimate_tokens chars_per_token s
  content_tokens (items is) = sum_items is
  content_tokens (json none) = 100
  content_tokens (json (some s)) = estimate_tokens chars_per_token s

  unfoldable pub add : Text → Content → TokenBudget → ℕ × TokenBudget
  unfolding content_tokens set_item
  add name content b =
      let tokens = content_tokens content in
      (tokens, record b { items = set_item name tokens b.items })
