-- ===== src/RateLimit/Bound.antt =====
-- What the limiter allows, through any checks of any keys.
use enterprise_ai_sales_orch.Prelude.{
  ◌≢◌, ltb→lt, ℕ, ◌+◌, ◌≤◌, ◌<◌, ◌≡◌, ◌↔◌, ◌∙◌, ◌&&◌, leb, ltb, Bool, true, Bool-cases, inl, inr,
  ap, sym, refl, List, [], ◌∷◌, ◌++◌, arith, keep, length, if◌then◌else◌,
}
use mathlib.Core.List.{append-nil}
use mathlib.Core.Path.{subst}
use enterprise_ai_sales_orch.RateLimit.{check_rate_limit, in_window, Verdict}

-- How many of the times a window still holds at a time, and later if none comes after it.
unfoldable pub recent : ℕ → ℕ → List ℕ → ℕ
recent window t [] = 0
recent window t (ts ∷ xs) = (if ltb t (ts + window) then 1 else 0) + recent window t xs

-- How many of the times stand in the window that ends at a time.
unfoldable pub within : ℕ → ℕ → List ℕ → ℕ
within window t [] = 0
within window t (ts ∷ xs) = (if leb ts t && ltb t (ts + window) then 1 else 0) + within window t xs

length-keep-in_window :
    (window now : ℕ) (xs : List ℕ) → length (keep (in_window window now) xs) ≡ recent window now xs
unfolding in_window recent
length-keep-in_window window now [] = refl
length-keep-in_window window now (x ∷ xs) = ground (arith, length-keep-in_window window now xs)

recent-keep :
    (window now t : ℕ) (xs : List ℕ)
    → now ≤ t
    → recent window t (keep (in_window window now) xs) ≡ recent window t xs
unfolding in_window recent
recent-keep window now t [] h = refl
recent-keep window now t (x ∷ xs) h = ground (arith, recent-keep window now t xs h)

recent_antitone :
    (window now t : ℕ) (xs : List ℕ) → now ≤ t → recent window t xs ≤ recent window now xs
unfolding recent
recent_antitone window now t [] h = omega arith
recent_antitone window now t (x ∷ xs) h = ground (arith, recent_antitone window now t xs h)

recent-append :
    (window t : ℕ) (xs ys : List ℕ)
    → recent window t (xs ++ ys) ≡ recent window t xs + recent window t ys
unfolding recent
recent-append window t [] ys = omega arith
recent-append window t (x ∷ xs) ys = ground (arith, recent-append window t xs ys)

within-append :
    (window t : ℕ) (xs ys : List ℕ)
    → within window t (xs ++ ys) ≡ within window t xs + within window t ys
unfolding within
within-append window t [] ys = omega arith
within-append window t (x ∷ xs) ys = ground (arith, within-append window t xs ys)

within-le-recent : (window t : ℕ) (xs : List ℕ) → within window t xs ≤ recent window t xs
unfolding within recent
within-le-recent window t [] = omega arith
within-le-recent window t (x ∷ xs) = ground (arith, within-le-recent window t xs)

within_one :
    (window now t : ℕ)
    → (within window t (now ∷ []) ≤ 1) × (t < now → within window t (now ∷ []) ≡ 0)
unfolding within
within_one window now t = ground arith

-- Each check comes no earlier than the one before, and the last one by a given time.
abbrev pub Ascends : {K : Type 0} → ℕ → List (K × ℕ) → ℕ → Type 0
Ascends from [] until = from ≤ until
Ascends from ((k, t) ∷ checks) until = (from ≤ t) × Ascends t checks until

module _ {K : Type 0} (same : Discrete K) (limit : K → ℕ) (window : ℕ) where
  abbrev pub check : K → ℕ → (K → List ℕ) → Verdict × (K → List ℕ)
  check k now requests = check_rate_limit same k (limit k) window now requests

  -- Checks of any keys in turn, with the times of those of one key that were allowed.
  unfoldable pub check_all : K → List (K × ℕ) → List ℕ × (K → List ℕ) → List ℕ × (K → List ℕ)
  check_all j [] s = s
  check_all j ((k, now) ∷ checks) (past, requests) =
      let (verdict, requests') = check k now requests in
      let longer = if verdict.allowed then past ++ now ∷ [] else past in
      check_all j checks (elim (same k j) [ yes _ ↦ longer | no _ ↦ past ], requests')

  -- What the allowed times and the stored ones of a key keep to: no window holds more than the limit,
  -- and what is no longer stored is too old for a window that ends from now on.
  record Keeps (j : K) (now : ℕ) (past stored : List ℕ) : Type 0 where
    bounded : (t : ℕ) → within window t past ≤ limit j
    complete : (t : ℕ) → now ≤ t → recent window t stored ≡ recent window t past

  module _ (j : K) (from now : ℕ) (past : List ℕ) (requests : K → List ℕ) (later : from ≤ now)
      (keeps : Keeps j from past (requests j)) where
    kept : List ℕ
    kept = keep (in_window window now) (requests j)

    kept_count : length kept ≡ recent window now past
    unfolding kept
    kept_count = length-keep-in_window window now (requests j) ∙ keeps.complete now later

    kept_complete :
        (new : List ℕ) (t : ℕ)
        → now ≤ t
        → recent window t (kept ++ new) ≡ recent window t (past ++ new)
    unfolding kept
    kept_complete new t h = ground (
      arith,
      recent-append window t kept new,
      recent-append window t past new,
      recent-keep window now t (requests j) h,
      keeps.complete t,
    )

    allowed-bounded : length kept < limit j → (t : ℕ) → within window t (past ++ now ∷ []) ≤ limit j
    allowed-bounded room t = ground (
      arith,
      within-append window t past (now ∷ []),
      within_one window now t,
      within-le-recent window t past,
      recent_antitone window now t past,
      keeps.bounded t,
      kept_count,
    )

    -- What a check of the key itself does.
    record Checked (r : Verdict × (K → List ℕ)) (room : Bool) : Type 0 where
      answer : r.0.allowed ≡ room
      stored : r.1 j ≡ kept ++ (if room then now ∷ [] else [])
      remaining : room ≡ true → r.0.remaining + length kept + 1 ≡ limit j

    check-Checked : Checked (check j now requests) (ltb (length kept) (limit j))
    unfolding check_rate_limit kept
    check-Checked =
        let recent_times = keep (in_window window now) (requests j) in
        record {
          answer = ground arith;
          stored = ground (arith, same j j, append-nil recent_times);
          remaining = λ h. ground (arith, h);
        }

    check-Keeps :
        let r = check j now requests in
        Keeps j now (if r.0.allowed then past ++ now ∷ [] else past) (r.1 j)
    check-Keeps =
        let c = check-Checked in
        elim (Bool-cases (ltb (length kept) (limit j))) [
          | inl room ↦
              rw (c.answer, room)
                (record {
                  bounded = allowed-bounded (ltb→lt _ _ room);
                  complete = λ t h. rw c.stored (rw room (kept_complete (now ∷ []) t h));
                })
          | inr full ↦
              rw (c.answer, full)
                (record {
                  bounded = keeps.bounded;
                  complete = λ t h.
                      rw c.stored
                        (rw full (kept_complete [] t h ∙ ap (recent window t) (append-nil past)));
                })
        ]

    check_allowed : ((check j now requests).0.allowed ≡ true) ↔ (recent window now past < limit j)
    check_allowed =
        let answer = check-Checked.answer in
        ground (arith, answer, kept_count, ltb→lt (length kept) (limit j))

    check_remaining :
        (check j now requests).0.allowed ≡ true
        → (check j now requests).0.remaining + recent window now past + 1 ≡ limit j
    check_remaining h =
        let c = check-Checked in
        let counted = c.remaining (sym c.answer ∙ h) in omega (arith, counted, kept_count)

  check_other :
      (j k : K) (now : ℕ) (requests : K → List ℕ) → j ≢ k → (check k now requests).1 j ≡ requests j
  unfolding check_rate_limit
  check_other j k now requests apart = ground (arith, same k j, apart)

  -- a check of any key
  step-Keeps :
      (j k : K) (from now : ℕ) (past : List ℕ) (requests : K → List ℕ)
      → from ≤ now
      → Keeps j from past (requests j)
      → let r = check k now requests in
        let longer = if r.0.allowed then past ++ now ∷ [] else past in
        Keeps j now (elim (same k j) [ yes _ ↦ longer | no _ ↦ past ]) (r.1 j)
  step-Keeps j k from now past requests later keeps =
      let r = check k now requests in
      let longer = if r.0.allowed then past ++ now ∷ [] else past in
      elim (same k j) as (λ d. Keeps j now (elim d [ yes _ ↦ longer | no _ ↦ past ]) (r.1 j)) [
        | yes equal ↦
            subst (λ i. Keeps i from past (requests i) → Keeps i now longer (r.1 i)) equal
              (check-Keeps k from now past requests later) keeps
        | no differ ↦ rw (check_other j k now requests (λ e. differ (sym e))) (record {
          bounded = keeps.bounded;
          complete = λ t h. keeps.complete t (omega (arith, later, h));
        })
      ]

  check_all-Keeps :
      (j : K) (from until : ℕ) (checks : List (K × ℕ)) (past : List ℕ) (requests : K → List ℕ)
      → Ascends from checks until
      → Keeps j from past (requests j)
      → let s = check_all j checks (past, requests) in Keeps j until s.0 (s.1 j)
  unfolding check_all
  check_all-Keeps j from until [] past requests up keeps = record {
    bounded = keeps.bounded;
    complete = λ t h. keeps.complete t (omega (arith, up, h));
  }
  check_all-Keeps j from until ((k, now) ∷ checks) past requests up keeps =
      check_all-Keeps j now until checks _ (check k now requests).1 up.1
        (step-Keeps j k from now past requests up.0 keeps)

  -- Checks of any keys, at times that do not step back, of a new limiter: no window, whenever it ends,
  -- holds more allowed checks of a key than the key's limit. The next check of the key is allowed
  -- exactly when fewer than the limit were allowed in the window that ends with it, and an allowed one
  -- answers with the number that remain after it.
  pub check_all_bounded :
      (checks : List (K × ℕ)) (j : K) (now : ℕ)
      → Ascends 0 checks now
      → let (past, requests) = check_all j checks ([], λ _. []) in
        let (verdict, requests') = check j now requests in
        ((t : ℕ) → within window t past ≤ limit j)
        × ((verdict.allowed ≡ true) ↔ (recent window now past < limit j))
        × (verdict.allowed ≡ true → verdict.remaining + recent window now past + 1 ≡ limit j)
  unfolding within
  check_all_bounded checks j now up =
      let s = check_all j checks ([], λ _. []) in
      let keeps =
        check_all-Keeps j 0 now checks [] (λ _. []) up
          (record { bounded = λ t. omega arith; complete = λ t h. refl }) in
      (
        keeps.bounded,
        check_allowed j now now s.0 s.1 (omega arith) keeps,
        check_remaining j now now s.0 s.1 (omega arith) keeps,
      )
