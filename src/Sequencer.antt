-- ===== src/Sequencer.antt =====
-- tiers/tier_3/channel_sequencer_agent: the agent that sends the steps of a sequence, and its harness.
-- What the agent reads of its environment is a record of settings, and what it calls (Redis, the mail
-- server, the webhooks, the clock) are operations on a world, each of which may raise an exception,
-- known by its text. The check of the payload is a library's: a payload is a request, or none.
pub mod Guards
pub mod Agent
pub mod Harness
pub mod Deliveries
pub mod Throttle
pub mod Retries
pub mod Resending
mod Tests
use enterprise_ai_sales_orch.Prelude.{
  ℕ, ◌==◌, Bool, true, false, Option, none, some, List, [], ◌∷◌, if◌then◌else◌,
}
use enterprise_ai_sales_orch.Prelude.Text.{Text, text_eq, truthy}
use enterprise_ai_sales_orch.Harness.Retry.{Reply, returned, raised, interrupted}

-- a value of a dictionary, as far as the agent looks at it
pub data Value : Type 0 where
  null : Value
  text : Text → Value
  texts : List Text → Value
  flag : Bool → Value

abbrev pub Dict : Type 0
Dict = List (Text × Value)

-- `d.get(key)`
unfoldable pub get : Text → Dict → Value
get k [] = null
get k ((j, v) ∷ d) = if text_eq j k then v else get k d

-- `bool(v)`
unfoldable pub is_true : Value → Bool
is_true null = false
is_true (text s) = truthy s
is_true (texts []) = false
is_true (texts (t ∷ ts)) = true
is_true (flag b) = b

-- `a or b`
unfoldable pub or_else : Value → Value → Value
unfolding is_true
or_else a b = if is_true a then a else b

-- `SequenceStep`
pub record SequenceStep : Type 0 where
  pub channel : Text
  pub to_email : Option Text
  pub subject : Option Text
  pub body : Option Text
  pub from_email : Option Text
  pub template_id : Option Text
  pub delay_minutes : ℕ
  pub metadata : Dict

-- `SequenceRequest`
pub record SequenceRequest : Type 0 where
  pub tenant_id : Text
  pub lead_id : Option Text
  pub steps : List SequenceStep
  pub context : Dict

pub data Status : Type 0 where
  scheduled blocked throttled draft sent skipped error : Status

pub data Reason : Type 0 where
  delayed approval_required webhook_missing hour_limit new_thread_limit : Reason
  hard_stop : Text → Reason
  hard_stop_keyword : Text → Reason

-- one entry of `deliveries`; a key that the entry does not have is `none`
pub record Delivery : Type 0 where
  pub channel : Text
  pub status : Status
  pub reason : Option Reason
  pub error_text : Option Text
  pub message_id : Option Text
  pub scheduled_for : Option ℕ

-- `SequenceResult`; its status is `scheduled`, `sent` or `error`
pub record SequenceResult : Type 0 where
  pub status : Status
  pub dispatched_channels : List Text
  pub deliveries : List Delivery
  pub error_text : Option Text

-- the environment variables; a limit is 0 where it is missing, no number or not positive
pub record Settings : Type 0 where
  pub hard_stop_keywords : Text
  pub max_per_hour : ℕ
  pub max_new_threads : ℕ
  pub approval_mode : Text
  pub webhook_url : Text → Text

-- What a webhook answers: its status is "success" or "ok", or it is another with an error text, if any.
pub data Response : Type 0 where
  accepted : Response
  refused : Option Text → Response

-- The keys of the throttle's counters, for a tenant at the present hour and day, and the increment of a
-- counter with its expiry; the mail server, with the identifier of the message; and the webhooks.
pub record Services (W : Type 0) : Type 0 where
  pub has_redis : Bool
  pub hour_key : Text → W → Text
  pub day_key : Text → W → Text
  pub incr : Text → W → Reply ℕ Text × W
  pub now : W → ℕ
  pub send_email : SequenceStep → W → Reply Text Text × W
  pub post_webhook : Text → SequenceStep → SequenceRequest → W → Reply Response Text × W

-- an action on the world that may raise
abbrev pub Action : Type 0 → Type 0 → Type 0
Action W A = W → Reply A Text × W

infixl 5 ◌>>=◌
abbrev pub ◌>>=◌ : {W A B : Type 0} → Action W A → (A → Action W B) → Action W B
◌>>=◌ m f w =
    let (r, w') = m w in
    elim r [ returned a ↦ f a w' | raised e ↦ (raised e, w') | interrupted ↦ (interrupted, w') ]

abbrev pub pure : {W A : Type 0} → A → Action W A
pure a w = (returned a, w)
