-- ===== src/InboxPoller.antt =====
-- services/email/inbox_poller.py with the event of services/email/providers.py: emails are fetched, those
-- seen before are left out, the rest are filtered and published to the manager. The provider, the Redis
-- client (with its namespace), the clock and the texts of the filter's reasons are parameters. A confidence
-- is a count of the units of PreFilter.
pub mod Event
pub mod Once
pub mod Again
mod Tests
use enterprise_ai_sales_orch.Prelude.{
  ℕ, zero, suc, ◌+◌, leb, ◌++◌, Bool, true, false, ◌&&◌, not, Option, none, some, List, [], ◌∷◌,
  if◌then◌else◌,
}
use enterprise_ai_sales_orch.Prelude.Int.{pos}
use enterprise_ai_sales_orch.Prelude.Text.{Text, codes, listed}
use enterprise_ai_sales_orch.Effects.{
  Reply, returned, raised, interrupted, Action, ◌>>=◌, pure, caught,
}
use enterprise_ai_sales_orch.PreFilter.{
  Category, bounce, auto_reply, system, marketing, newsletter, Reason, PreFilterResult, Email,
  pre_filter_email,
}
use enterprise_ai_sales_orch.Persistence.Value.{
  text_or_null, Value, null, number, text, arr, obj, Items, nil, item, Fields, end, entry,
}
use enterprise_ai_sales_orch.InboxPoller.Event.{InboundEmailEvent, to_payload}

-- the constants that the environment sets, and the arguments of `run_poller`
pub record Settings : Type 0 where
  pub tenant_id : Text
  pub provider_name : Text
  pub dedup_ttl : ℕ
  pub max_pending : ℕ
  pub backpressure_enabled : Bool
  pub pre_filter_enabled : Bool
  pub skip_categories : List Text
  pub skip_confidence : ℕ
  pub mark_read : Bool
  pub once : Bool
  pub poll_interval : ℕ

-- `exists`, `setex` and `xlen` of a key, `publish` of a payload to a stream in the envelope of a new task,
-- the provider's two methods and `time.sleep`
pub record Services (W : Type 0) : Type 0 where
  pub exists : Text → Action W Bool
  pub setex : Text → ℕ → Action W Bool
  pub xlen : Text → Action W ℕ
  pub publish : Text → Fields → Action W Text
  pub fetch_new_messages : Action W (List InboundEmailEvent)
  pub mark_as_read : InboundEmailEvent → Action W Bool
  pub sleep : ℕ → W → W

-- the counts of a poll
pub record Tally : Type 0 where
  pub published : ℕ
  pub skipped_prefilter : ℕ

abbrev pub no_tally : Tally
no_tally = record { published = 0; skipped_prefilter = 0 }

unfoldable pub make_dedup_key : Text → Text → Text → Text
make_dedup_key tenant_id provider message_id =
    tenant_id ++ codes ":inbox:seen:" ++ provider ++ codes ":" ++ message_id

abbrev manager_tasks : Text → Text
manager_tasks tenant_id = tenant_id ++ codes ":manager:tasks"

abbrev pub category_name : Category → Text
category_name bounce = codes "bounce"
category_name auto_reply = codes "auto_reply"
category_name system = codes "system"
category_name marketing = codes "marketing"
category_name newsletter = codes "newsletter"

abbrev pub name_of : Option Category → Option Text
name_of none = none
name_of (some c) = some (category_name c)

-- a result of the filter as the poller reads it
pub record Filtered : Type 0 where
  pub category : Option Text
  pub confidence : ℕ
  pub reason : Text

abbrev pub dedup_key : Settings → InboundEmailEvent → Text
dedup_key settings e = make_dedup_key settings.tenant_id settings.provider_name e.message_id

module _ (re_search : Text → Text → Bool) (reason_text : Reason → Text) (settings : Settings) where
  abbrev email_of : InboundEmailEvent → Email
  email_of e = record {
    from_email = e.from_email;
    subject = e.subject;
    body = e.body;
    list_unsubscribe = e.list_unsubscribe;
    precedence = e.precedence;
    auto_response_suppress = e.auto_response_suppress;
  }

  abbrev filtered : PreFilterResult → Filtered
  filtered r = record {
    category = name_of r.category;
    confidence = r.confidence;
    reason = reason_text r.reason;
  }

  -- `apply_pre_filter`, or the result of a filter that is disabled
  unfoldable pub apply_pre_filter : InboundEmailEvent → Filtered
  unfolding pre_filter_email
  apply_pre_filter e =
      if settings.pre_filter_enabled
      then filtered (pre_filter_email re_search (email_of e))
      else record { category = none; confidence = 0; reason = codes "Pre-filter disabled" }

  unfoldable pub is_skipped : Filtered → Bool
  is_skipped r = elim r.category [
    | none ↦ false
    | some c ↦ listed c settings.skip_categories && leb settings.skip_confidence r.confidence
  ]

  abbrev actions_allowed : Items
  actions_allowed =
      item (text (codes "store")) (item (text (codes "enrich")) (item (text (codes "reply")) nil))

  -- the payload of `publish_event`
  unfoldable pub task_payload : InboundEmailEvent → Filtered → Fields
  unfolding to_payload
  task_payload e r = entry (codes "goal") (text (codes "process inbound email")) (
      entry (codes "context")
        (obj (
          entry (codes "email_event")
            (obj (to_payload (record e { pre_filter_category = r.category })))
            (entry (codes "actions_allowed") (arr actions_allowed) (
              entry (codes "pre_filter")
                (obj (
                  entry (codes "category") (text_or_null r.category) (
                    entry (codes "confidence") (number (pos r.confidence))
                      (entry (codes "reason") (text r.reason) end))))
                end))))
        (entry (codes "intent") (text (codes "inbound")) end))

  module _ {W : Type 0} (services : Services W) where
    unfoldable pub should_process : Text → Action W Bool
    should_process key = do
      there ← services.exists key
      if there then pure false else (do done ← services.setex key settings.dedup_ttl; pure true)

    unfoldable pub check_backpressure : Action W Bool
    unfolding caught
    check_backpressure =
        if settings.backpressure_enabled
        then caught false (
            services.xlen (manager_tasks settings.tenant_id) >>= λ pending.
            pure (leb settings.max_pending pending))
        else pure false

    unfoldable pub publish_event : InboundEmailEvent → Filtered → Action W Text
    unfolding task_payload
    publish_event e r = services.publish (manager_tasks settings.tenant_id) (task_payload e r)

    -- `mark_as_read`, whose exceptions are only logged
    unfoldable pub mark : InboundEmailEvent → Action W Bool
    unfolding caught
    mark e = if settings.mark_read then caught false (services.mark_as_read e) else pure false

    abbrev pub mark_skipped : InboundEmailEvent → Tally → Action W Tally
    mark_skipped e t =
        mark e >>= λ done. pure (record t { skipped_prefilter = t.skipped_prefilter + 1 })

    abbrev pub mark_published : InboundEmailEvent → Tally → Action W Tally
    mark_published e t = mark e >>= λ done. pure (record t { published = t.published + 1 })

    abbrev pub process_new : InboundEmailEvent → Tally → Action W Tally
    process_new e t =
        if is_skipped (apply_pre_filter e)
        then mark_skipped e t
        else (publish_event e (apply_pre_filter e) >>= λ id. mark_published e t)

    -- one round of the loop over the events
    unfoldable pub process_event : InboundEmailEvent → Tally → Action W Tally
    unfolding make_dedup_key should_process apply_pre_filter is_skipped publish_event mark
    process_event e t = do
      fresh ← should_process (dedup_key settings e)
      if fresh then process_new e t else pure t

    unfoldable pub process_events : List InboundEmailEvent → Tally → Action W Tally
    unfolding process_event
    process_events [] t = pure t
    process_events (e ∷ es) t = process_event e t >>= process_events es

    -- the `try` of a round; none where the queue of the manager is too long
    unfoldable pub poll : Action W (Option Tally)
    unfolding check_backpressure process_events
    poll = do
      full ← check_backpressure
      if full then pure none else (do
        events ← services.fetch_new_messages
        tally ← process_events events no_tally
        pure (some tally))

    abbrev pub is_interrupted : Reply (Option Tally) Text → Bool
    is_interrupted interrupted = true
    is_interrupted _ = false

    -- the loop of `run_poller`, for that many rounds at most: an exception ends a round only, and
    -- `KeyboardInterrupt` or `once` the loop
    unfoldable pub run_poller : ℕ → W → W
    unfolding poll
    run_poller zero w = w
    run_poller (suc rounds) w =
        let (reply, w') = poll w in
        let rest = run_poller rounds (services.sleep settings.poll_interval w') in
        if is_interrupted reply then w' else if settings.once then w' else rest
