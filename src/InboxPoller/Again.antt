-- ===== src/InboxPoller/Again.antt =====
-- What the poller does with an email that it meets again.
use mathlib.Core.Path.{subst}
use enterprise_ai_sales_orch.Prelude.{
  ◌≡◌, Bool, true, false, List, [], ◌∷◌, refl, sym, ap, ◌∙◌, All,
}
use enterprise_ai_sales_orch.Prelude.Text.{Text}
use enterprise_ai_sales_orch.Effects.{
  returned, raised, ◌>>=◌, pure, bind_inv, bind_at, bind_raised, other_chosen,
}
use enterprise_ai_sales_orch.PreFilter.{Reason}
use enterprise_ai_sales_orch.InboxPoller.{
  mark_published, mark_skipped, Settings, Services, Tally, dedup_key, apply_pre_filter, is_skipped,
  should_process, publish_event, process_event, process_events,
}
use enterprise_ai_sales_orch.InboxPoller.Event.{InboundEmailEvent}
use enterprise_ai_sales_orch.InboxPoller.Once.{
  SeenLaws, Keeps, process, check, after_check, set_key, should_process-new, process_event-seen,
  events-Keeps, process-seen, publish_new, publish_new-Keeps,
}

module _ (re_search : Text → Text → Bool) (reason_text : Reason → Text) (settings : Settings)
    {W : Type 0} (services : Services W) (seen : Text → W → Bool)
    (laws : SeenLaws services seen) where
  AllSeen : List InboundEmailEvent → W → Type 0
  AllSeen es w = All (λ e. seen (dedup_key settings e) w ≡ true) es

  process_events-AllSeen :
      (es : List InboundEmailEvent) (t t' : Tally) (w : W)
      → (process_events re_search reason_text settings services es t w).0 ≡ returned t'
      → AllSeen es (process_events re_search reason_text settings services es t w).1
  unfolding AllSeen process_events process Keeps
  process_events-AllSeen [] t t' w h = tt
  process_events-AllSeen (e ∷ es) t t' w h =
      let first = process_event re_search reason_text settings services e t in
      let more = process_events re_search reason_text settings services es in
      let (a, is, rest) = bind_inv first more w t' h in
      let v = (first w).1 in
      let both = bind_at first w more a v (ap (λ x. (x, v)) is) in
      let here = process-seen re_search reason_text settings services seen laws e t a w is in
      let kept =
        events-Keeps re_search reason_text settings services seen laws (dedup_key settings e) es a v
          here in
      subst (λ x. AllSeen (e ∷ es) x.1) (sym both) (kept, process_events-AllSeen es a t' v rest)

  AllSeen-again :
      (es : List InboundEmailEvent) (q : Tally) (v : W)
      → AllSeen es v
      → process_events re_search reason_text settings services es q v ≡ (returned q, v)
  unfolding AllSeen process_events process
  AllSeen-again [] q v h = refl
  AllSeen-again (e ∷ es) q v (old, h) =
      let first = process_event re_search reason_text settings services e q in
      bind_at first v (process_events re_search reason_text settings services es) q v
        (process_event-seen re_search reason_text settings services seen laws e q v old)
      ∙ AllSeen-again es q v h

  -- While no key expires: after the events of a poll are handled without an exception, handling the same
  -- events again publishes nothing, marks nothing and counts nothing.
  pub process_events-again :
      (es : List InboundEmailEvent) (t t' q : Tally) (w : W)
      → (process_events re_search reason_text settings services es t w).0 ≡ returned t'
      → process_events re_search reason_text settings services es q
          (process_events re_search reason_text settings services es t w).1
        ≡ (returned q, (process_events re_search reason_text settings services es t w).1)
  process_events-again es t t' q w h =
      AllSeen-again es q (process_events re_search reason_text settings services es t w).1
        (process_events-AllSeen es t t' w h)

  -- A new email that the filter lets through, and whose publishing raises, is lost while its key lives: the exception
  -- leaves its key behind, and to handle the email again does nothing.
  pub process_event_lost :
      (e : InboundEmailEvent) (t q : Tally) (b : Bool) (x : Text) (w w' v : W)
      → seen (dedup_key settings e) w ≡ false
      → services.setex (dedup_key settings e) settings.dedup_ttl w ≡ (returned b, w')
      → is_skipped re_search reason_text settings
          (apply_pre_filter re_search reason_text settings e)
        ≡ false
      → publish_event re_search reason_text settings services e
          (apply_pre_filter re_search reason_text settings e)
          w'
        ≡ (raised x, v)
      → (process_event re_search reason_text settings services e t w ≡ (raised x, v))
        × (process_event re_search reason_text settings services e q v ≡ (returned q, v))
  unfolding process process_event check after_check set_key publish_new Keeps
  process_event_lost e t q b x w w' v new stored passed fails =
      let k = dedup_key settings e in
      let set =
        should_process-new re_search reason_text settings services seen laws k w new
        ∙ bind_at (services.setex k settings.dedup_ttl) w (λ done. pure true) b w' stored in
      let fresh : after_check re_search reason_text settings services seen laws e t true w'
          ≡ (raised x, v) =
        (other_chosen (mark_skipped re_search reason_text settings services e t)
            (publish_new re_search reason_text settings services seen laws e >>= λ id.
              mark_published re_search reason_text settings services e t)
            w' passed
          ∙ bind_raised (publish_new re_search reason_text settings services seen laws e) w'
              (λ id. mark_published re_search reason_text settings services e t) x v fails) in
      let lives : seen k v ≡ true =
        ap (λ y. seen k y.1) (sym fails)
        ∙ publish_new-Keeps re_search reason_text settings services seen laws k e w' (
            ap (λ y. seen k y.1) (sym stored)
            ∙ laws.added k settings.dedup_ttl w b (ap (λ y. y.0) stored)) in
      (
        bind_at (should_process re_search reason_text settings services k) w
              (after_check re_search reason_text settings services seen laws e t) true w' set
            ∙ fresh,
        process_event-seen re_search reason_text settings services seen laws e q v lives,
      )
