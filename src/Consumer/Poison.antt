-- ===== src/Consumer/Poison.antt =====
-- A message that the consumer can neither handle nor put away.
use enterprise_ai_sales_orch.Prelude.{
  ℕ, ◌≡◌, ◌∙◌, ap, arith, true, false, Option, none, some, List, ◌∷◌, if◌then◌else◌,
}
use enterprise_ai_sales_orch.Prelude.Int.{pos, ltb_ℤ, ◌≤ℤ◌}
use enterprise_ai_sales_orch.Prelude.Text.{Text, codes}
use enterprise_ai_sales_orch.Harness.Retry.{Reply, returned, raised, interrupted}
use enterprise_ai_sales_orch.Sequencer.{Settings, Services, Action, ◌>>=◌, pure}
use enterprise_ai_sales_orch.Dlq.{Json, DeadLetterMessage, to_dict, or_raise}
use enterprise_ai_sales_orch.Dlq.Actions.{bind_at, bind_raised, caught_at}
use enterprise_ai_sales_orch.Consumer.{
  run_task, dead_message, ChannelSequencerAgentConsumer, Calls, process_task, get_delivery_count,
  bury, dead_message, handle_failure, handle, handle_all,
}

to_dict-none :
    {J : Type 0} (json : Json J) (m : DeadLetterMessage J)
    → json.dumps m.original_message ≡ none
    → to_dict json m ≡ none
unfolding to_dict
to_dict-none json m h = ground (arith, h)

module _ {J P D W : Type 0} (json : Json J) (settings : Settings) (services : Services W)
    (calls : Calls J P D W) (c : ChannelSequencerAgentConsumer) where
  -- the letter of a message that JSON does not write
  bury-bytes :
      (message_id : Text) (message : J) (e : Text) (count : ℕ) (u : W)
      → json.dumps message ≡ none
      → bury json settings services calls c message_id message e count u
        ≡ (raised (codes "TypeError"), u)
  unfolding bury
  bury-bytes message_id message e count u bytes =
      let letter = dead_message json settings services calls c message_id message e count u in
      let no_fields : to_dict json letter ≡ none = to_dict-none json letter bytes in
      let raises : or_raise (to_dict json letter) (codes "TypeError") u
          ≡ (raised (codes "TypeError"), u) =
        rw no_fields in
      bind_raised (or_raise (to_dict json letter) (codes "TypeError")) u
        (λ fields. calls.xadd c.dlq_stream (json.dict fields) >>= λ id.
          calls.xack c.task_stream c.consumer_group message_id >>= λ n. pure tt)
        (codes "TypeError") u raises

  last_count :
      (message_id : Text) (count : ℕ) (v u : W)
      → calls.xpending c.task_stream c.consumer_group message_id v ≡ (returned (some count), u)
      → get_delivery_count json settings services calls c message_id v ≡ (returned count, u)
  unfolding get_delivery_count
  last_count message_id count v u counted =
      let read = calls.xpending c.task_stream c.consumer_group message_id in
      let times : Option ℕ → Action W ℕ = λ o. pure (elim o [ none ↦ 1 | some n ↦ n ]) in
      caught_at (read >>= times) v 1 count u (bind_at read v times (some count) u counted)

  handle_failure_raises :
      (message_id : Text) (message : J) (e : Text) (count : ℕ) (v u : W)
      → c.dlq_enabled ≡ true
      → calls.xpending c.task_stream c.consumer_group message_id v ≡ (returned (some count), u)
      → c.max_retries ≤ℤ pos count
      → json.dumps message ≡ none
      → handle_failure json settings services calls c message_id message e v
        ≡ (raised (codes "TypeError"), u)
  unfolding handle_failure
  handle_failure_raises message_id message e count v u on counted many bytes =
      let enough : ltb_ℤ (pos count) c.max_retries ≡ false = ground (arith, many) in
      let next : ℕ → Action W Unit = λ n.
        if ltb_ℤ (pos n) c.max_retries
        then pure tt
        else bury json settings services calls c message_id message e n in
      let buried : next count u ≡ (raised (codes "TypeError"), u) =
        rw enough (bury-bytes message_id message e count u bytes) in
      rw on (
        bind_at (get_delivery_count json settings services calls c message_id) v next count u
          (last_count message_id count v u counted)
        ∙ buried)

  -- what follows the task in `handle`
  abbrev pub after_task : Text → J → Reply Unit Text × W → Reply Unit Text × W
  after_task message_id message r = elim r.0 [
    | returned x ↦ (returned tt, r.1)
    | raised e ↦ handle_failure json settings services calls c message_id message e r.1
    | interrupted ↦ (interrupted, r.1)
  ]

  pub handle-eq :
      (message_id : Text) (message : J) (w : W) (r : Reply Unit Text × W)
      → process_task json settings services calls c message_id message w ≡ r
      → handle json settings services calls c message_id message w ≡ after_task message_id message r
  unfolding handle
  handle-eq message_id message w r h = ap (after_task message_id message) h

  invalid :
      (message_id : Text) (message : J) (w : W)
      → calls.from_redis_message message ≡ none
      → process_task json settings services calls c message_id message w
        ≡ (raised (codes "ValidationError"), w)
  unfolding process_task
  invalid message_id message w no_envelope =
      let raises : or_raise (calls.from_redis_message message) (codes "ValidationError") w
          ≡ (raised (codes "ValidationError"), w) =
        rw no_envelope in
      bind_raised (or_raise (calls.from_redis_message message) (codes "ValidationError")) w
        (run_task json settings services calls c message_id) (codes "ValidationError") w raises

  -- A message that is no valid envelope and that JSON does not write, as it has bytes, with its last
  -- delivery and dead letters on: the reading of its deliveries is the one call that is made, so that
  -- it is neither answered nor acknowledged nor a dead letter; a `TypeError` leaves the loop, and no
  -- message after it is handled.
  pub handle_all_stops :
      (message_id : Text) (message : J) (rest : List (Text × J)) (count : ℕ) (w u : W)
      → calls.from_redis_message message ≡ none
      → json.dumps message ≡ none
      → c.dlq_enabled ≡ true
      → calls.xpending c.task_stream c.consumer_group message_id w ≡ (returned (some count), u)
      → c.max_retries ≤ℤ pos count
      → handle_all json settings services calls c ((message_id, message) ∷ rest) w
        ≡ (raised (codes "TypeError"), u)
  unfolding handle_all
  handle_all_stops message_id message rest count w u no_envelope bytes on counted many =
      bind_raised (handle json settings services calls c message_id message) w
        (λ x. handle_all json settings services calls c rest) (codes "TypeError") u
        (handle-eq message_id message w (raised (codes "ValidationError"), w)
            (invalid message_id message w no_envelope)
          ∙ handle_failure_raises message_id message (codes "ValidationError") count w u on counted
              many bytes)
