-- ===== src/Dlq.antt =====
-- core/dlq.py: the dead letters of a stream, their texts for Redis and the queue that holds them.
-- JSON and the Redis client are parameters: a codec of values, and the commands on a world, each of
-- which may raise an exception, known by its text.
pub mod Codec
pub mod Streams
pub mod Moves
pub mod Actions
pub mod Requeue
pub mod Restore
mod Tests
use enterprise_ai_sales_orch.Prelude.{
  ℕ, Bool, true, false, Option, none, some, List, [], ◌∷◌, ◌++◌, if◌then◌else◌, not,
}
use enterprise_ai_sales_orch.Prelude.Int.{ℤ, leb_ℤ}
use enterprise_ai_sales_orch.Prelude.Text.{Text, codes, text_eq, truthy, or_empty}
use enterprise_ai_sales_orch.Prelude.Number.{int_of, str_of}
use enterprise_ai_sales_orch.Harness.Retry.{Reply, returned, raised, interrupted}
use enterprise_ai_sales_orch.Sequencer.{Action, ◌>>=◌, pure}

-- the fields of an entry of a stream
abbrev pub Fields : Type 0
Fields = List (Text × Text)

-- `data.get(key)`
unfoldable pub field : Text → Fields → Option Text
field k [] = none
field k ((j, v) ∷ d) = if text_eq j k then some v else field k d

-- `data.get(key, default)`
abbrev pub field_or : Text → Text → Fields → Text
field_or k v d = elim (field k d) [ none ↦ v | some t ↦ t ]

-- `text or None`
abbrev pub or_none : Text → Option Text
or_none [] = none
or_none (c ∷ s) = some (c ∷ s)

-- JSON values, with the dictionary of some fields among them; `dumps` is `none` where it raises a
-- `TypeError`, and `loads` where it raises a `JSONDecodeError`.
pub record Json (J : Type 0) : Type 0 where
  pub dict : Fields → J
  pub dumps : J → Option Text
  pub loads : Text → Option J

pub record DeadLetterMessage (J : Type 0) : Type 0 where
  pub original_message : J
  pub original_stream : Text
  pub original_message_id : Text
  pub failure_reason : Text
  pub failure_count : ℤ
  pub failed_at : Text
  pub last_error : Option Text
  pub error_type : Option Text
  pub consumer_name : Option Text
  pub tenant_id : Option Text

pub record DeadLetterQueue : Type 0 where
  pub source_stream : Text
  pub dlq_stream : Text
  pub max_retries : ℤ
  pub enabled : Bool

-- The commands of the client: `xrange` of the entry of one identifier, or of the first entries.
pub record Services (J W : Type 0) : Type 0 where
  pub now : W → Text
  pub xadd : Text → J → Action W Text
  pub xrange : Text → Option Text → ℕ → Action W (List (Text × Fields))
  pub xdel : Text → Text → Action W ℕ
  pub xlen : Text → Action W ℕ

-- `try: ... except Exception: return default`
unfoldable pub caught : {W A : Type 0} → A → Action W A → Action W A
caught default m w =
    let (r, w') = m w in
    elim r [
      | returned a ↦ (returned a, w')
      | raised e ↦ (returned default, w')
      | interrupted ↦ (interrupted, w')
    ]

-- a result, where an exception is raised in its place when there is none
abbrev pub or_raise : {W A : Type 0} → Option A → Text → Action W A
or_raise none e w = (raised e, w)
or_raise (some a) e w = (returned a, w)

unfoldable pub get_dlq_stream_name : Text → Text → Text
get_dlq_stream_name source_stream suffix = source_stream ++ suffix

-- the constructor `DeadLetterQueue`
unfoldable pub dead_letter_queue : Text → Text → ℤ → Bool → DeadLetterQueue
dead_letter_queue source suffix retries on = record {
  source_stream = source;
  dlq_stream = source ++ suffix;
  max_retries = retries;
  enabled = on;
}

unfoldable pub should_dlq : DeadLetterQueue → ℤ → Bool
should_dlq q failure_count = if not q.enabled then false else leb_ℤ q.max_retries failure_count

module _ {J : Type 0} (json : Json J) where
  unfoldable pub to_fields : DeadLetterMessage J → Text → Fields
  unfolding str_of
  to_fields m text =
      (codes "original_message", text)
      ∷ (codes "original_stream", m.original_stream)
      ∷ (codes "original_message_id", m.original_message_id)
      ∷ (codes "failure_reason", m.failure_reason)
      ∷ (codes "failure_count", str_of m.failure_count)
      ∷ (codes "failed_at", m.failed_at)
      ∷ (codes "last_error", or_empty m.last_error)
      ∷ (codes "error_type", or_empty m.error_type)
      ∷ (codes "consumer_name", or_empty m.consumer_name)
      ∷ (codes "tenant_id", or_empty m.tenant_id)
      ∷ []

  -- `to_dict`; `none` is the `TypeError` of `json.dumps`
  unfoldable pub to_dict : DeadLetterMessage J → Option Fields
  unfolding to_fields
  to_dict m = elim (json.dumps m.original_message) [ none ↦ none | some t ↦ some (to_fields m t) ]

  -- what is read of the field `original_message`
  unfoldable pub parsed : Text → J
  parsed text = elim (json.loads text) [
    | none ↦ json.dict ((codes "raw", text) ∷ [])
    | some value ↦ value
  ]

  -- `from_dict`; `none` is the `ValueError` of `int`
  unfoldable pub from_dict : Fields → Option (DeadLetterMessage J)
  unfolding field parsed int_of
  from_dict fields = elim (int_of (field_or (codes "failure_count") (codes "0") fields)) [
    | none ↦ none
    | some count ↦ some (record {
      original_message = parsed (field_or (codes "original_message") (codes "{}") fields);
      original_stream = field_or (codes "original_stream") [] fields;
      original_message_id = field_or (codes "original_message_id") [] fields;
      failure_reason = field_or (codes "failure_reason") (codes "unknown") fields;
      failure_count = count;
      failed_at = field_or (codes "failed_at") [] fields;
      last_error = or_none (field_or (codes "last_error") [] fields);
      error_type = or_none (field_or (codes "error_type") [] fields);
      consumer_name = or_none (field_or (codes "consumer_name") [] fields);
      tenant_id = or_none (field_or (codes "tenant_id") [] fields);
    })
  ]
