-- ===== src/Dlq/Streams.antt =====
-- core/dlq.py: the operations of the queue.
use mathlib.Core.Option
use enterprise_ai_sales_orch.Dlq.{
  returned, not, ◌∷◌, if◌then◌else◌, some, ℤ, pure, ◌>>=◌, none, [], codes, Option, List, Text,
  Action, ℕ, Json, DeadLetterMessage, DeadLetterQueue, Services, Fields, to_dict, from_dict, caught,
  or_raise,
}

module _ {J W : Type 0} (json : Json J) (services : Services J W) (q : DeadLetterQueue) where
  -- the dead letter of a message; an error is its text and the name of its type
  unfoldable pub dead_letter :
      J
      → Text
      → Option (Text × Text)
      → ℤ
      → Text
      → Option Text
      → Option Text
      → W
      → DeadLetterMessage J
  dead_letter message message_id failure count reason consumer tenant w = record {
    original_message = message;
    original_stream = q.source_stream;
    original_message_id = message_id;
    failure_reason = reason;
    failure_count = count;
    failed_at = services.now w;
    last_error = Option.map (λ e. e.0) failure;
    error_type = Option.map (λ e. e.1) failure;
    consumer_name = consumer;
    tenant_id = tenant;
  }

  -- `client.xadd(self.dlq_stream, dlq_message.to_dict())`
  unfoldable pub add_dead : DeadLetterMessage J → Action W Text
  add_dead m = or_raise (to_dict json m) (codes "TypeError") >>= λ fields.
      services.xadd q.dlq_stream (json.dict fields)

  unfoldable pub send_to_dlq :
      J
      → Text
      → Option (Text × Text)
      → ℤ
      → Text
      → Option Text
      → Option Text
      → Action W (Option Text)
  unfolding dead_letter add_dead caught
  send_to_dlq message message_id failure count reason consumer tenant w =
      let m = dead_letter message message_id failure count reason consumer tenant w in
      if not q.enabled
      then (returned none, w)
      else caught none (add_dead m >>= λ id. pure (some id)) w

  unfoldable pub get_dlq_length : Action W ℕ
  unfolding caught
  get_dlq_length = caught 0 (services.xlen q.dlq_stream)

  -- the list of `peek_dlq`; one entry that cannot be read raises for all
  unfoldable pub read_all : List (Text × Fields) → Option (List (Text × DeadLetterMessage J))
  read_all [] = some []
  read_all ((id, fields) ∷ entries) =
      let rest = read_all entries in
      elim (from_dict json fields) [
        | none ↦ none
        | some m ↦ elim rest [ none ↦ none | some ms ↦ some ((id, m) ∷ ms) ]
      ]

  unfoldable pub peek_dlq : ℕ → Action W (List (Text × DeadLetterMessage J))
  unfolding caught read_all
  peek_dlq count = caught [] (
      services.xrange q.dlq_stream none count >>= λ entries.
      or_raise (read_all entries) (codes "ValueError"))

  -- the message of an entry back to the stream, and the entry out of the queue
  unfoldable pub requeue_entry : Text → Fields → Action W (Option Text)
  requeue_entry id fields = or_raise (from_dict json fields) (codes "ValueError") >>= λ m.
      services.xadd q.source_stream m.original_message >>= λ new.
      services.xdel q.dlq_stream id >>= λ n. pure (some new)

  unfoldable pub requeue_first : Text → List (Text × Fields) → Action W (Option Text)
  unfolding requeue_entry
  requeue_first id [] = pure none
  requeue_first id (entry ∷ entries) = requeue_entry id entry.1

  unfoldable pub requeue_message : Text → Action W (Option Text)
  unfolding requeue_first caught
  requeue_message id = caught none (services.xrange q.dlq_stream (some id) 1 >>= requeue_first id)
