-- ===== src/Harness/Quota/Window.antt =====
-- The quota bounds the executions of every window, if each allowed one is recorded.
use enterprise_ai_sales_orch.Prelude.{
  ap, inr, ltb→lt, ◌∙◌, inl, Bool-cases, ℕ, ◌+◌, ◌≤◌, ◌<◌, ◌≡◌, Bool, List, [], ◌∷◌, ◌++◌, arith,
  refl, leb, ltb, keep, if◌then◌else◌, ◌&&◌,
}
use mathlib.Core.List.{append-nil}
use enterprise_ai_sales_orch.Harness.Quota.{
  init, Execution, InMemoryQuota, in_time, total_count, store, request,
}

-- The executions that a window ending at a time or later may still hold.
unfoldable pub recent : ℕ → ℕ → List Execution → ℕ
recent window t [] = 0
recent window t ((ts, n) ∷ es) = (if leb t (ts + window) then n else 0) + recent window t es

-- The executions of the window that ends at a time.
unfoldable pub in_window : ℕ → ℕ → List Execution → ℕ
in_window window t [] = 0
in_window window t ((ts, n) ∷ es) =
    (if leb ts t && leb t (ts + window) then n else 0) + in_window window t es

total_count-keep :
    (window now : ℕ) (es : List Execution)
    → total_count (keep (in_time window now) es) ≡ recent window now es
unfolding total_count in_time recent
total_count-keep window now [] = refl
total_count-keep window now (e ∷ es) = ground (arith, total_count-keep window now es)

recent-keep :
    (window now t : ℕ) (es : List Execution)
    → now ≤ t
    → recent window t (keep (in_time window now) es) ≡ recent window t es
unfolding in_time recent
recent-keep window now t [] h = refl
recent-keep window now t (e ∷ es) h = ground (arith, recent-keep window now t es h)

recent_antitone :
    (window now t : ℕ) (es : List Execution) → now ≤ t → recent window t es ≤ recent window now es
unfolding recent
recent_antitone window now t [] h = omega arith
recent_antitone window now t (e ∷ es) h = ground (arith, recent_antitone window now t es h)

recent-append :
    (window t : ℕ) (xs ys : List Execution)
    → recent window t (xs ++ ys) ≡ recent window t xs + recent window t ys
unfolding recent
recent-append window t [] ys = omega arith
recent-append window t (e ∷ es) ys = ground (arith, recent-append window t es ys)

in_window-append :
    (window t : ℕ) (xs ys : List Execution)
    → in_window window t (xs ++ ys) ≡ in_window window t xs + in_window window t ys
unfolding in_window
in_window-append window t [] ys = omega arith
in_window-append window t (e ∷ es) ys = ground (arith, in_window-append window t es ys)

in_window-le-recent :
    (window t : ℕ) (es : List Execution) → in_window window t es ≤ recent window t es
unfolding in_window recent
in_window-le-recent window t [] = omega arith
in_window-le-recent window t (e ∷ es) = ground (arith, in_window-le-recent window t es)

in_window_one :
    (window t t' : ℕ)
    → (in_window window t' ((t, 1) ∷ []) ≤ 1) × (t' < t → in_window window t' ((t, 1) ∷ []) ≡ 0)
unfolding in_window
in_window_one window t t' = ground arith

-- Each time is no earlier than the one before.
abbrev pub Ascends : ℕ → List ℕ → Type 0
Ascends from [] = Unit
Ascends from (t ∷ ts) = (from ≤ t) × Ascends t ts

module _ {K : Type 0} (same : Discrete K) (k : K) where
  -- Requests of one agent at given times: the executions that are allowed are added to a history.
  unfoldable pub requests :
      List ℕ → List Execution × InMemoryQuota K → List Execution × InMemoryQuota K
  requests [] s = s
  requests (t ∷ ts) (past, q) =
      let (allowed, q') = request same k t q in
      requests ts ((if allowed then past ++ (t, 1) ∷ [] else past), q')

  kept : ℕ → InMemoryQuota K → List Execution
  kept t q = keep (in_time q.window_seconds t) (q.executions k)

  pub store_self : (es : List Execution) (f : K → List Execution) → store same k es f k ≡ es
  unfolding store
  store_self es f = ground (arith, same k k)

  -- What a request does to the agent's executions.
  record Requested (t : ℕ) (q : InMemoryQuota K) (allowed : Bool) : Type 0 where
    answer : (request same k t q).0 ≡ allowed
    executions :
        (request same k t q).1.executions k ≡ kept t q ++ (if allowed then (t, 1) ∷ [] else [])
    limit : (request same k t q).1.requests_per_hour ≡ q.requests_per_hour
    window : (request same k t q).1.window_seconds ≡ q.window_seconds

  request_lem :
      (t : ℕ) (q : InMemoryQuota K)
      → Requested t q (ltb (total_count (kept t q)) q.requests_per_hour)
  unfolding request kept
  request_lem t q = ground (
    arith,
    store_self (kept t q) q.executions,
    store_self (kept t q ++ (t, 1) ∷ []) (store same k (kept t q) q.executions),
    append-nil (kept t q),
  )

  -- What the history and the quota keep: no window of the history holds more than the limit, and what
  -- the quota has dropped is too old for a window that ends from now on.
  pub record Keeps (limit window now : ℕ) (past : List Execution) (q : InMemoryQuota K)
      : Type 0 where
    pub same_limit : q.requests_per_hour ≡ limit
    pub same_window : q.window_seconds ≡ window
    pub bounded : (t : ℕ) → in_window window t past ≤ limit
    pub complete : (t : ℕ) → now ≤ t → recent window t (q.executions k) ≡ recent window t past

  total_count-kept :
      (t : ℕ) (q : InMemoryQuota K)
      → total_count (kept t q) ≡ recent q.window_seconds t (q.executions k)
  unfolding kept
  total_count-kept t q = total_count-keep q.window_seconds t (q.executions k)

  recent-kept :
      (t t' : ℕ) (q : InMemoryQuota K)
      → t ≤ t'
      → recent q.window_seconds t' (kept t q) ≡ recent q.window_seconds t' (q.executions k)
  unfolding kept
  recent-kept t t' q h = recent-keep q.window_seconds t t' (q.executions k) h

  module _ (limit window now t : ℕ) (past : List Execution) (q : InMemoryQuota K) (later : now ≤ t)
      (keeps : Keeps limit window now past q) where
    allowed-bounded :
        total_count (kept t q) < q.requests_per_hour
        → (t' : ℕ) → in_window window t' (past ++ (t, 1) ∷ []) ≤ limit
    allowed-bounded room t' = ground (
      arith,
      in_window-append window t' past ((t, 1) ∷ []),
      in_window_one window t t',
      in_window-le-recent window t' past,
      recent_antitone window t t' past,
      keeps.complete t,
      keeps.bounded t',
      keeps.same_limit,
      keeps.same_window,
      total_count-kept t q,
    )

    kept_complete :
        (new : List Execution) (t' : ℕ)
        → t ≤ t'
        → recent window t' (kept t q ++ new) ≡ recent window t' (past ++ new)
    kept_complete new t' h = ground (
      arith,
      recent-append window t' (kept t q) new,
      recent-append window t' past new,
      recent-kept t t' q h,
      keeps.complete t',
      keeps.same_window,
    )

    request-Keeps :
        let (allowed, q') = request same k t q in
        Keeps limit window t (if allowed then past ++ (t, 1) ∷ [] else past) q'
    request-Keeps =
        let r = request_lem t q in
        elim (Bool-cases (ltb (total_count (kept t q)) q.requests_per_hour)) [
          | inl room ↦
              rw (r.answer, room)
                (record {
                  same_limit = r.limit ∙ keeps.same_limit;
                  same_window = r.window ∙ keeps.same_window;
                  bounded = allowed-bounded (ltb→lt _ _ room);
                  complete = λ t' h. rw r.executions (rw room (kept_complete ((t, 1) ∷ []) t' h));
                })
          | inr full ↦
              rw (r.answer, full)
                (record {
                  same_limit = r.limit ∙ keeps.same_limit;
                  same_window = r.window ∙ keeps.same_window;
                  bounded = keeps.bounded;
                  complete = λ t' h.
                      rw r.executions
                        (rw full (kept_complete [] t' h ∙ ap (recent window t') (append-nil past)));
                })
        ]

  requests-Keeps :
      (limit window now : ℕ) (ts : List ℕ) (past : List Execution) (q : InMemoryQuota K)
      → Ascends now ts
      → Keeps limit window now past q
      → (t : ℕ) → in_window window t (requests ts (past, q)).0 ≤ limit
  unfolding requests
  requests-Keeps limit window now [] past q up keeps = keeps.bounded
  requests-Keeps limit window now (t ∷ ts) past q up keeps =
      requests-Keeps limit window t ts _ (request same k t q).1 up.1
        (request-Keeps limit window now t past q up.0 keeps)

  -- Requests of one agent, at times that do not step back, to a new quota: whatever the times, no
  -- window that ends at any time holds more of the allowed executions than the limit, if each allowed
  -- one is recorded.
  pub requests_bounded :
      (limit window now : ℕ) (ts : List ℕ) (t : ℕ)
      → Ascends now ts
      → in_window window t (requests ts ([], init limit window)).0 ≤ limit
  unfolding init in_window recent
  requests_bounded limit window now ts t up =
      requests-Keeps limit window now ts [] (init limit window) up
        (record {
          same_limit = refl;
          same_window = refl;
          bounded = λ t'. omega arith;
          complete = λ t' h. refl;
        })
        t
