-- ===== src/Tokens/Truncation.antt =====
-- What truncation keeps, and when it keeps the budget.
use enterprise_ai_sales_orch.Prelude.{
  leb, Bool-cases, ltb, ℕ, zero, suc, ◌+◌, ◌-◌, ◌*◌, ◌≤◌, ◌<◌, ◌≡◌, true, false, List, [], ◌∷◌,
  ◌++◌, reverse, arith, refl, length, take, ap, sym, ◌∙◌, ◌⊎◌, inl, inr, min,
}
use enterprise_ai_sales_orch.Prelude.Int.{◌-ℤ◌}
use enterprise_ai_sales_orch.Prelude.Text.{Text}
use native.Mathlib.Nat.{div-add-mod}
use mathlib.Core.List.{reverse-append, reverse-reverse}
use enterprise_ai_sales_orch.Tokens.{
  estimate_tokens, take_within, truncate_messages_by_tokens, truncate_text_by_tokens,
}

module _ {ℓ} {A : Type ℓ} (cost : A → ℕ) where
  -- What the messages cost together.
  unfoldable pub sum_cost : List A → ℕ
  sum_cost [] = 0
  sum_cost (m ∷ ms) = cost m + sum_cost ms

  -- A first part within the budget that the next message would exceed, if there is one.
  pub record IsLongest (max_tokens total : ℕ) (ms kept : List A) : Type ℓ where
    pub rest : List A
    pub parts : ms ≡ kept ++ rest
    pub fits : total + sum_cost kept ≤ max_tokens
    pub full :
        (rest ≡ [])
        ⊎ ((m : A) × (later : List A) × (rest ≡ m ∷ later)
            × (max_tokens < total + sum_cost kept + cost m))

  take_within-IsLongest :
      (max_tokens total : ℕ) (ms : List A)
      → total ≤ max_tokens
      → IsLongest max_tokens total ms (take_within cost max_tokens total ms)
  unfolding take_within sum_cost
  take_within-IsLongest max_tokens total [] h = record {
    rest = [];
    parts = refl;
    fits = omega arith;
    full = inl refl;
  }
  take_within-IsLongest max_tokens total (m ∷ ms) h =
      elim (Bool-cases (ltb max_tokens (total + cost m))) [
        | inl over ↦ rw over (record {
          rest = m ∷ ms;
          parts = refl;
          fits = omega arith;
          full = inr (m, ms, refl, ground arith);
        })
        | inr room ↦
            let r = take_within-IsLongest max_tokens (total + cost m) ms (ground arith) in
            rw room (record {
              rest = r.rest;
              parts = ap (λ l. m ∷ l) r.parts;
              fits = omega (arith, r.fits);
              full = elim r.full [
                | inl all ↦ inl all
                | inr (n, later, e, over) ↦ inr (n, later, e, omega (arith, over))
              ];
            })
      ]

  sum_cost-append : (xs ys : List A) → sum_cost (xs ++ ys) ≡ sum_cost xs + sum_cost ys
  unfolding sum_cost
  sum_cost-append [] ys = omega arith
  sum_cost-append (x ∷ xs) ys = omega (arith, sum_cost-append xs ys)

  sum_cost-reverse : (xs : List A) → sum_cost (reverse xs) ≡ sum_cost xs
  unfolding sum_cost
  sum_cost-reverse [] = refl
  sum_cost-reverse (x ∷ xs) =
      let r : sum_cost (reverse (x ∷ xs)) ≡ sum_cost (reverse xs ++ x ∷ []) =
        ap sum_cost (reverse-append (x ∷ []) xs) in
      omega (arith, r, sum_cost-append (reverse xs) (x ∷ []), sum_cost-reverse xs)

  -- A last part within the budget, that the message before it would exceed, if there is one.
  pub record IsLongestRecent (max_tokens : ℕ) (ms kept : List A) : Type ℓ where
    pub dropped : List A
    pub parts : ms ≡ dropped ++ kept
    pub fits : sum_cost kept ≤ max_tokens
    pub full :
        (dropped ≡ [])
        ⊎ ((m : A) × (earlier : List A) × (dropped ≡ earlier ++ m ∷ [])
            × (max_tokens < sum_cost kept + cost m))

  -- Truncation that preserves the oldest messages keeps a first part of the list, with its order: the
  -- part costs no more than the budget, and is the whole list or would exceed the budget with the
  -- next message.
  truncate-IsLongest :
      (max_tokens : ℕ) (ms : List A)
      → IsLongest max_tokens 0 ms (truncate_messages_by_tokens cost max_tokens false ms)
  unfolding truncate_messages_by_tokens
  truncate-IsLongest max_tokens ms = take_within-IsLongest max_tokens 0 ms (omega arith)

  -- Truncation that preserves the recent messages keeps a last part of the list, in its order: the
  -- part costs no more than the budget, and is the whole list or would exceed the budget with the
  -- message before it.
  pub truncate-IsLongestRecent :
      (max_tokens : ℕ) (ms : List A)
      → IsLongestRecent max_tokens ms (truncate_messages_by_tokens cost max_tokens true ms)
  unfolding truncate_messages_by_tokens
  truncate-IsLongestRecent max_tokens ms =
      let kept = take_within cost max_tokens 0 (reverse ms) in
      let r = take_within-IsLongest max_tokens 0 (reverse ms) (omega arith) in
      record {
        dropped = reverse r.rest;
        parts = sym (reverse-reverse ms) ∙ ap reverse r.parts ∙ reverse-append kept r.rest;
        fits = omega (arith, r.fits, sum_cost-reverse kept);
        full = elim r.full [
          | inl all ↦ inl (ap reverse all)
          | inr (m, later, e, over) ↦ inr (
            m,
            reverse later,
            ap reverse e ∙ reverse-append (m ∷ []) later,
            omega (arith, over, sum_cost-reverse kept),
          )
        ];
      }

length-take-append : (n : ℕ) (s t : Text) → length (take n s ++ t) ≡ min n (length s) + length t
length-take-append zero s t = omega arith
length-take-append (suc n) [] t = omega arith
length-take-append (suc n) (c ∷ s) t = omega (arith, length-take-append n s t)

estimate_tokens-le :
    (k : ℕ) (s : Text) (n : ℕ) → 0 < k → 0 < n → length s ≤ n * k → estimate_tokens k s ≤ n
unfolding estimate_tokens
estimate_tokens-le k [] n h p l = omega arith
estimate_tokens-le k (c ∷ s) n h p l = grind (arith, div-add-mod (suc (length s)) k)

-- Where the suffix fits into the characters of the budget, the truncated text keeps the budget.
truncated_length :
    (k max_tokens : ℕ) (suffix s : Text)
    → length suffix ≤ max_tokens * k
    → max_tokens < estimate_tokens k s
    → length (truncate_text_by_tokens k max_tokens suffix s) ≤ max_tokens * k
unfolding truncate_text_by_tokens ◌-ℤ◌
truncated_length k max_tokens suffix s fits over =
    let room = max_tokens * k - length suffix in
    ground (arith, length-take-append (max_tokens * k + 0 - (0 + length suffix)) s suffix)

untouched :
    (k max_tokens : ℕ) (suffix s : Text)
    → estimate_tokens k s ≤ max_tokens
    → truncate_text_by_tokens k max_tokens suffix s ≡ s
unfolding truncate_text_by_tokens
untouched k max_tokens suffix s h = ground arith

-- With at least one character to a token, and a suffix that is not empty and fits the characters of
-- the budget, a truncated text is estimated within the budget.
truncate_text-le :
    (k max_tokens : ℕ) (suffix s : Text)
    → 0 < k
    → length suffix ≤ max_tokens * k
    → 0 < length suffix
    → estimate_tokens k (truncate_text_by_tokens k max_tokens suffix s) ≤ max_tokens
truncate_text-le k max_tokens suffix s h fits some_suffix =
    elim (Bool-cases (leb (estimate_tokens k s) max_tokens)) [
      | inl short ↦
          let h' : estimate_tokens k s ≤ max_tokens = ground arith in
          rw (untouched k max_tokens suffix s h') h'
      | inr over ↦
          estimate_tokens-le k (truncate_text_by_tokens k max_tokens suffix s) max_tokens h
            (grind arith) (truncated_length k max_tokens suffix s fits (ground arith))
    ]

-- Where the suffix is longer than the characters of the budget, by no more than the text is long, a
-- text that is over the budget is cut at its end instead, by the difference: the result is as long as
-- the text and the characters of the budget together.
truncate_text_overflows :
    (k max_tokens : ℕ) (suffix s : Text)
    → max_tokens * k < length suffix
    → max_tokens < estimate_tokens k s
    → length suffix ≤ length s + max_tokens * k
    → length (truncate_text_by_tokens k max_tokens suffix s) ≡ length s + max_tokens * k
unfolding truncate_text_by_tokens ◌-ℤ◌
truncate_text_overflows k max_tokens suffix s short over long = ground (
  arith,
  length-take-append (length s - (0 + length suffix - (max_tokens * k + 0) - 1 + 1)) s suffix,
)
