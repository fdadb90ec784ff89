-- ===== src/InboxPoller/Tests.antt =====
-- The poller with a list of keys, on a stream that takes nothing.
use enterprise_ai_sales_orch.Prelude.{
  ◌≡◌, Bool, true, false, none, some, List, [], ◌∷◌, refl, arith,
}
use enterprise_ai_sales_orch.Prelude.Text.{Text, codes, text_eq_refl, listed}
use enterprise_ai_sales_orch.Effects.{returned, raised, pure}
use enterprise_ai_sales_orch.PreFilter.{Reason}
use enterprise_ai_sales_orch.InboxPoller.{
  Settings, Services, no_tally, dedup_key, process_event, process_events,
}
use enterprise_ai_sales_orch.InboxPoller.Event.{InboundEmailEvent}
use enterprise_ai_sales_orch.InboxPoller.Once.{SeenLaws}
use enterprise_ai_sales_orch.InboxPoller.Again.{process_events-again, process_event_lost}

no_match : Text → Text → Bool
no_match pattern s = false

no_text : Reason → Text
no_text r = []

abbrev settings : Settings
settings = record {
  tenant_id = codes "dev";
  provider_name = codes "imap";
  dedup_ttl = 86400;
  max_pending = 100;
  backpressure_enabled = true;
  pre_filter_enabled = false;
  skip_categories = codes "bounce" ∷ [];
  skip_confidence = 57646075230342352;
  mark_read = true;
  once = true;
  poll_interval = 60;
}

abbrev mail : InboundEmailEvent
mail = record {
  provider = codes "imap";
  message_id = codes "m1";
  thread_id = none;
  subject = some (codes "Hello");
  body = none;
  from_email = codes "ada@example.org";
  to_email = codes "us@example.org";
  received_at = none;
  from_name = none;
  internal_id = none;
  list_unsubscribe = none;
  precedence = none;
  auto_response_suppress = none;
  x_mailer = none;
  reply_to = none;
  pre_filter_category = none;
}

-- the world is the list of the keys
abbrev keys : Services (List Text)
keys = record {
  exists = λ k w. (returned (listed k w), w);
  setex = λ k n w. (returned true, k ∷ w);
  xlen = λ k. pure 0;
  publish = λ s d w. (raised (codes "ConnectionError"), w);
  fetch_new_messages = pure (mail ∷ []);
  mark_as_read = λ e. pure true;
  sleep = λ n w. w;
}

keys_laws : SeenLaws keys listed
keys_laws = record {
  told = λ k w. refl;
  added = λ k n w b h. let same = text_eq_refl k in rw same refl;
  setex_keeps = λ j k n w h. ground (arith, h);
  publish_keeps = λ j s d w h. h;
  mark_keeps = λ j e w h. h;
}

-- a key that is there already
abbrev met : List Text
met = dedup_key settings mail ∷ []

process_events-again_example :
    process_events no_match no_text settings keys
      (mail ∷ [])
      no_tally
      (process_events no_match no_text settings keys (mail ∷ []) no_tally met).1
    ≡ (
      returned no_tally,
      (process_events no_match no_text settings keys (mail ∷ []) no_tally met).1,
    )
unfolding process_events
process_events-again_example =
    process_events-again no_match no_text settings keys listed keys_laws (mail ∷ []) no_tally
      no_tally no_tally met refl

process_event_lost_example :
    (process_event no_match no_text settings keys mail no_tally []
      ≡ (raised (codes "ConnectionError"), met))
    × (process_event no_match no_text settings keys mail no_tally met ≡ (returned no_tally, met))
unfolding process_events
process_event_lost_example =
    process_event_lost no_match no_text settings keys listed keys_laws mail no_tally no_tally true
      (codes "ConnectionError") [] met met refl refl refl refl
