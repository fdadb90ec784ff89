-- ===== src/InboxPoller/Once.antt =====
-- The keys of the emails that the poller has seen.
use enterprise_ai_sales_orch.Prelude.{
  ℕ, ◌+◌, ◌≡◌, Bool, true, false, List, [], ◌∷◌, sym, ap, ◌∙◌, arith, if◌then◌else◌, Bool-cases,
  inl, inr,
}
use enterprise_ai_sales_orch.Prelude.Text.{Text}
use enterprise_ai_sales_orch.Effects.{
  returned, Action, ◌>>=◌, pure, caught, bind_inv, bind_cases, bind_at,
}
use enterprise_ai_sales_orch.PreFilter.{Reason}
use enterprise_ai_sales_orch.Persistence.Value.{Fields}
use enterprise_ai_sales_orch.InboxPoller.{
  Settings, Services, Tally, dedup_key, apply_pre_filter, is_skipped, should_process, publish_event,
  mark, process_new, process_event, process_events,
}
use enterprise_ai_sales_orch.InboxPoller.Event.{InboundEmailEvent}

-- What the poller relies on, while no key expires: `exists` tells whether a key is seen and changes nothing,
-- `setex` makes its key one, and nothing takes a key back.
pub record SeenLaws {W : Type 0} (services : Services W) (seen : Text → W → Bool) : Type 0 where
  pub told : (k : Text) (w : W) → services.exists k w ≡ (returned (seen k w), w)
  pub added :
      (k : Text) (n : ℕ) (w : W) (b : Bool)
      → (services.setex k n w).0 ≡ returned b
      → seen k (services.setex k n w).1 ≡ true
  pub setex_keeps :
      (j k : Text) (n : ℕ) (w : W) → seen j w ≡ true → seen j (services.setex k n w).1 ≡ true
  pub publish_keeps :
      (j s : Text) (d : Fields) (w : W) → seen j w ≡ true → seen j (services.publish s d w).1 ≡ true
  pub mark_keeps :
      (j : Text) (e : InboundEmailEvent) (w : W)
      → seen j w ≡ true
      → seen j (services.mark_as_read e w).1 ≡ true

module _ (re_search : Text → Text → Bool) (reason_text : Reason → Text) (settings : Settings)
    {W : Type 0} (services : Services W) (seen : Text → W → Bool)
    (laws : SeenLaws services seen) where
  -- A seen key stays one.
  unfoldable pub Keeps : {A : Type 0} → Text → Action W A → Type 0
  Keeps j m = (w : W) → seen j w ≡ true → seen j (m w).1 ≡ true

  bind-Keeps :
      {A B : Type 0} (j : Text) (m : Action W A) (f : A → Action W B)
      → Keeps j m
      → ((a : A) → Keeps j (f a))
      → Keeps j (m >>= f)
  unfolding Keeps
  bind-Keeps j m f first second w h =
      bind_cases (λ r. seen j r.1 ≡ true) m f w (λ a e. second a (m w).1 (first w h))
        (λ x e. first w h) (λ e. first w h)

  mark-Keeps :
      (j : Text) (e : InboundEmailEvent) → Keeps j (mark re_search reason_text settings services e)
  unfolding Keeps mark caught
  mark-Keeps j e w h = ground (arith, laws.mark_keeps j e w, h)

  unfoldable pub process : InboundEmailEvent → Tally → Action W Tally
  process = process_event re_search reason_text settings services

  unfoldable pub check : Text → Action W Bool
  check = should_process re_search reason_text settings services

  unfoldable pub after_check : InboundEmailEvent → Tally → Bool → Action W Tally
  after_check e t fresh =
      if fresh then process_new re_search reason_text settings services e t else pure t

  unfoldable pub set_key : Text → Action W Bool
  set_key k = services.setex k settings.dedup_ttl >>= λ done. pure true

  should_process-seen : (k : Text) (w : W) → seen k w ≡ true → check k w ≡ (returned false, w)
  unfolding check should_process set_key
  should_process-seen k w h =
      bind_at (services.exists k) w (λ there. if there then pure false else set_key k) true w
        (laws.told k w ∙ ap (λ b. (returned b, w)) h)

  pub should_process-new : (k : Text) (w : W) → seen k w ≡ false → check k w ≡ set_key k w
  unfolding check should_process set_key
  should_process-new k w h =
      bind_at (services.exists k) w (λ there. if there then pure false else set_key k) false w
        (laws.told k w ∙ ap (λ b. (returned b, w)) h)

  pub process_event-seen :
      (e : InboundEmailEvent) (t : Tally) (w : W)
      → seen (dedup_key settings e) w ≡ true
      → process e t w ≡ (returned t, w)
  unfolding process process_event check after_check
  process_event-seen e t w h =
      bind_at (check (dedup_key settings e)) w (after_check e t) false w
        (should_process-seen (dedup_key settings e) w h)

  set_key-seen :
      (k : Text) (w : W) (b : Bool) → (set_key k w).0 ≡ returned b → seen k (set_key k w).1 ≡ true
  unfolding set_key
  set_key-seen k w b h =
      let (done, is, rest) =
        bind_inv (services.setex k settings.dedup_ttl) (λ d. pure true) w b h in
      let both =
        bind_at (services.setex k settings.dedup_ttl) w (λ d. pure true) done
          (services.setex k settings.dedup_ttl w).1
          (ap (λ x. (x, (services.setex k settings.dedup_ttl w).1)) is) in
      ap (λ x. seen k x.1) both ∙ laws.added k settings.dedup_ttl w done is

  check-seen :
      (k : Text) (w : W) (b : Bool) → (check k w).0 ≡ returned b → seen k (check k w).1 ≡ true
  check-seen k w b h = elim (Bool-cases (seen k w)) [
    | inl old ↦ ap (λ x. seen k x.1) (should_process-seen k w old) ∙ old
    | inr new ↦
        let same = should_process-new k w new in
        ap (λ x. seen k x.1) same ∙ set_key-seen k w b (sym (ap (λ x. x.0) same) ∙ h)
  ]

  pure-Keeps : {A : Type 0} (j : Text) (a : A) → Keeps j (pure a)
  unfolding Keeps
  pure-Keeps j a w h = h

  if-Keeps :
      {A : Type 0} (j : Text) (b : Bool) (m n : Action W A)
      → Keeps j m
      → Keeps j n
      → Keeps j (if b then m else n)
  if-Keeps j true m n h k = h
  if-Keeps j false m n h k = k

  exists-Keeps : (j k : Text) → Keeps j (services.exists k)
  unfolding Keeps
  exists-Keeps j k w h = ap (λ x. seen j x.1) (laws.told k w) ∙ h

  setex-Keeps : (j k : Text) → Keeps j (services.setex k settings.dedup_ttl)
  unfolding Keeps
  setex-Keeps j k w h = laws.setex_keeps j k settings.dedup_ttl w h

  check-Keeps : (j k : Text) → Keeps j (check k)
  unfolding check should_process set_key
  check-Keeps j k =
      bind-Keeps j (services.exists k) (λ there. if there then pure false else set_key k)
        (exists-Keeps j k)
        (λ there. if-Keeps j there (pure false) (set_key k) (pure-Keeps j false) (
          bind-Keeps j (services.setex k settings.dedup_ttl) (λ done. pure true) (setex-Keeps j k)
            (λ done. pure-Keeps j true)))

  counted : InboundEmailEvent → Tally → Action W Tally
  counted e t = mark re_search reason_text settings services e >>= λ done. pure t

  counted-Keeps : (j : Text) (e : InboundEmailEvent) (t : Tally) → Keeps j (counted e t)
  unfolding counted
  counted-Keeps j e t =
      bind-Keeps j (mark re_search reason_text settings services e) (λ done. pure t)
        (mark-Keeps j e) (λ done. pure-Keeps j t)

  unfoldable pub publish_new : InboundEmailEvent → Action W Text
  publish_new e =
      publish_event re_search reason_text settings services e
        (apply_pre_filter re_search reason_text settings e)

  pub publish_new-Keeps : (j : Text) (e : InboundEmailEvent) → Keeps j (publish_new e)
  unfolding Keeps publish_new publish_event
  publish_new-Keeps j e w h = laws.publish_keeps j _ _ w h

  process_new-Keeps :
      (j : Text) (e : InboundEmailEvent) (t : Tally)
      → Keeps j (process_new re_search reason_text settings services e t)
  unfolding counted publish_new
  process_new-Keeps j e t =
      let skipping = counted e (record t { skipped_prefilter = t.skipped_prefilter + 1 }) in
      let after = counted e (record t { published = t.published + 1 }) in
      if-Keeps j
        (is_skipped re_search reason_text settings
          (apply_pre_filter re_search reason_text settings e))
        skipping (publish_new e >>= λ id. after)
        (counted-Keeps j e (record t { skipped_prefilter = t.skipped_prefilter + 1 }))
        (bind-Keeps j (publish_new e) (λ id. after) (publish_new-Keeps j e)
          (λ id. counted-Keeps j e (record t { published = t.published + 1 })))

  after_check-Keeps :
      (j : Text) (e : InboundEmailEvent) (t : Tally) (b : Bool) → Keeps j (after_check e t b)
  unfolding after_check
  after_check-Keeps j e t b =
      if-Keeps j b (process_new re_search reason_text settings services e t) (pure t)
        (process_new-Keeps j e t) (pure-Keeps j t)

  process-Keeps : (j : Text) (e : InboundEmailEvent) (t : Tally) → Keeps j (process e t)
  unfolding process process_event check after_check
  process-Keeps j e t =
      bind-Keeps j (check (dedup_key settings e)) (after_check e t)
        (check-Keeps j (dedup_key settings e)) (after_check-Keeps j e t)

  pub events-Keeps :
      (j : Text) (es : List InboundEmailEvent) (t : Tally)
      → Keeps j (process_events re_search reason_text settings services es t)
  unfolding process_events process
  events-Keeps j [] t = pure-Keeps j t
  events-Keeps j (e ∷ es) t =
      bind-Keeps j (process e t) (process_events re_search reason_text settings services es)
        (process-Keeps j e t) (events-Keeps j es)

  -- After an event whose handling returns, its key is seen.
  pub process-seen :
      (e : InboundEmailEvent) (t t' : Tally) (w : W)
      → (process e t w).0 ≡ returned t'
      → seen (dedup_key settings e) (process e t w).1 ≡ true
  unfolding process process_event check after_check Keeps
  process-seen e t t' w h =
      let k = dedup_key settings e in
      let (fresh, is, rest) = bind_inv (check k) (after_check e t) w t' h in
      let v = (check k w).1 in
      let both = bind_at (check k) w (after_check e t) fresh v (ap (λ x. (x, v)) is) in
      ap (λ x. seen k x.1) both ∙ after_check-Keeps k e t fresh v (check-seen k w fresh is)
