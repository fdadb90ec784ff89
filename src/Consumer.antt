-- ===== src/Consumer.antt =====
-- tiers/tier_3/channel_sequencer_agent/consumer.py: the consumer of the tasks of the sequencer, which
-- runs the harness and answers on a stream, or moves a task that fails again and again to the dead
-- letters. The Redis client, the validation of envelopes and requests, and the tasks of the persistence
-- agent, as their texts, are parameters.
pub mod Answers
pub mod Handling
pub mod Poison
mod Tests
use enterprise_ai_sales_orch.Prelude.{
  ℕ, Bool, true, false, ◌&&◌, not, Option, none, some, List, [], ◌∷◌, ◌++◌, if◌then◌else◌,
}
use enterprise_ai_sales_orch.Prelude.Int.{ℤ, pos, ltb_ℤ}
use enterprise_ai_sales_orch.Prelude.Text.{Text, codes, or_text, truthy}
use enterprise_ai_sales_orch.Harness.Retry.{Reply, returned, raised, interrupted}
use enterprise_ai_sales_orch.Envelope.{Envelope, result_of, error_of}
use enterprise_ai_sales_orch.Sequencer.{
  SequenceStep, SequenceRequest, SequenceResult, Delivery, Status, sent, Settings, Services, Action,
  ◌>>=◌, pure, get, or_else, is_true, text, Value, null,
}
use enterprise_ai_sales_orch.Sequencer.Agent.{is_email, has_status}
use enterprise_ai_sales_orch.Sequencer.Harness.{
  failed, ChannelSequencerAgentHarness, Ending, Run, execute, finished, cancelled, no_round,
}
use enterprise_ai_sales_orch.Dlq.{Json, DeadLetterMessage, to_dict, caught, or_raise}

-- `ChannelSequencerAgentConsumer`, with the constants of core/dlq.py that it uses
pub record ChannelSequencerAgentConsumer : Type 0 where
  pub tenant_id : Text
  pub consumer_group : Text
  pub consumer_name : Text
  pub task_stream : Text
  pub result_stream : Text
  pub dlq_stream : Text
  pub max_retries : ℤ
  pub dlq_enabled : Bool
  pub harness : ChannelSequencerAgentHarness

-- the constructor
unfoldable pub consumer :
    Text
    → Text
    → Text
    → Text
    → ℤ
    → Bool
    → ChannelSequencerAgentHarness
    → ChannelSequencerAgentConsumer
consumer tenant group name suffix retries enabled harness =
    let tasks = tenant ++ codes ":agents:sequencing:tasks" in
    record {
      tenant_id = tenant;
      consumer_group = group;
      consumer_name = name;
      task_stream = tasks;
      result_stream = tenant ++ codes ":agents:sequencing:results";
      dlq_stream = tasks ++ suffix;
      max_retries = retries;
      dlq_enabled = enabled;
      harness = harness;
    }

-- What the consumer calls: the validation of a message and of its payload, the fields of an envelope,
-- the payload of a result, the task of the persistence agent (none where its envelope raises), the clock and `uuid4`, the type's name of an exception, and the commands of the client.
pub record Calls (J P D W : Type 0) : Type 0 where
  pub from_redis_message : J → Option (Envelope P D)
  pub to_redis_fields : Envelope P D → J
  pub request_of : P → Option SequenceRequest
  pub result_payload : SequenceResult → ℕ → P
  pub persistence_task :
      Text → Envelope P D → SequenceRequest → SequenceStep → Delivery → W → Option J
  pub time : W → ℕ
  pub date : W → Text
  pub new_id : W → Text
  pub type_name : Text → Text
  pub xadd : Text → J → Action W Text
  pub xack : Text → Text → Text → Action W ℕ
  pub xpending : Text → Text → Text → Action W (Option ℕ)

module _ {J P D W : Type 0} (json : Json J) (settings : Settings) (services : Services W)
    (calls : Calls J P D W) (c : ChannelSequencerAgentConsumer) where
  -- `_enqueue_persistence_message`
  unfoldable pub enqueue_persistence_message :
      Text → Envelope P D → SequenceRequest → SequenceStep → Delivery → Action W Unit
  unfolding or_else get is_true caught
  enqueue_persistence_message tenant envelope request step d w =
      let lead : Value = elim request.lead_id [ none ↦ null | some t ↦ text t ] in
      if not (is_true (or_else (get (codes "lead_id") step.metadata) lead))
      then (returned tt, w)
      else caught tt
          (or_raise (calls.persistence_task tenant envelope request step d w) (codes "ValueError")
            >>= λ task.
                calls.xadd (tenant ++ codes ":agents:persistence:tasks") task >>= λ id. pure tt)
          w

  -- the loop over the steps and their deliveries
  unfoldable pub persist_steps :
      Text → Envelope P D → SequenceRequest → List SequenceStep → List Delivery → Action W Unit
  unfolding enqueue_persistence_message is_email has_status
  persist_steps tenant envelope request [] ds = pure tt
  persist_steps tenant envelope request (step ∷ steps) [] = pure tt
  persist_steps tenant envelope request (step ∷ steps) (d ∷ ds) =
      let rest = persist_steps tenant envelope request steps ds in
      if is_email step && has_status sent d
      then (enqueue_persistence_message tenant envelope request step d >>= λ x. rest)
      else rest

  -- `_persist_email_deliveries`
  unfoldable pub persist_email_deliveries : Envelope P D → SequenceResult → Action W Unit
  unfolding persist_steps
  persist_email_deliveries envelope result = elim (calls.request_of envelope.payload) [
    | none ↦ pure tt
    | some request ↦
        persist_steps (or_text request.tenant_id c.tenant_id) envelope request request.steps
          result.deliveries
  ]

  -- an envelope on the stream of the results, and the acknowledgement of the task
  unfoldable pub answer : Text → Envelope P D → Action W Unit
  answer message_id envelope = calls.xadd c.result_stream (calls.to_redis_fields envelope) >>= λ id.
      calls.xack c.task_stream c.consumer_group message_id >>= λ n. pure tt

  unfoldable pub answer_result : Text → Envelope P D → SequenceResult → ℕ → Action W Unit
  unfolding answer persist_email_deliveries result_of
  answer_result message_id envelope result attempts =
      persist_email_deliveries envelope result >>= λ x w.
      answer message_id
        (result_of (calls.new_id w) (calls.time w) (calls.result_payload result attempts)
          (codes "agents:sequencing") envelope)
        w

  unfoldable pub answer_error : Text → Envelope P D → Text → Action W Unit
  unfolding answer error_of
  answer_error message_id envelope e w =
      answer message_id
        (error_of (calls.new_id w) (calls.time w) e (codes "agents:sequencing")
          (some (codes "CHANNEL_SEQ_ERROR")) envelope)
        w

  -- what follows the harness; a result of the harness is never an error
  unfoldable pub conclude : Text → Envelope P D → Ending SequenceResult → Action W Unit
  unfolding answer_result answer_error
  conclude message_id envelope (finished result n) w = answer_result message_id envelope result n w
  conclude message_id envelope (failed e n) w = answer_error message_id envelope e w
  conclude message_id envelope cancelled w = (interrupted, w)
  conclude message_id envelope no_round w = (raised (codes "AttributeError"), w)

  unfoldable pub run_task : Text → Envelope P D → Action W Unit
  unfolding conclude execute
  run_task message_id envelope w =
      let run = execute settings services c.harness (calls.request_of envelope.payload) w in
      conclude message_id envelope run.ending run.world

  unfoldable pub process_task : Text → J → Action W Unit
  unfolding run_task
  process_task message_id message =
      or_raise (calls.from_redis_message message) (codes "ValidationError") >>= λ envelope.
      run_task message_id envelope

  -- `_get_delivery_count`
  unfoldable pub get_delivery_count : Text → Action W ℕ
  unfolding caught
  get_delivery_count message_id = caught 1 (
      calls.xpending c.task_stream c.consumer_group message_id >>= λ o.
      pure (elim o [ none ↦ 1 | some n ↦ n ]))

  unfoldable pub dead_message : Text → J → Text → ℕ → W → DeadLetterMessage J
  dead_message message_id message e count w = record {
    original_message = message;
    original_stream = c.task_stream;
    original_message_id = message_id;
    failure_reason = codes "max_retries_exceeded";
    failure_count = pos count;
    failed_at = calls.date w;
    last_error = some e;
    error_type = some (calls.type_name e);
    consumer_name = some c.consumer_name;
    tenant_id = some c.tenant_id;
  }

  -- the end of `_handle_failure`, after the guards
  unfoldable pub bury : Text → J → Text → ℕ → Action W Unit
  unfolding to_dict dead_message
  bury message_id message e count w =
      (or_raise (to_dict json (dead_message message_id message e count w)) (codes "TypeError")
          >>= λ fields. calls.xadd c.dlq_stream (json.dict fields) >>= λ id.
              calls.xack c.task_stream c.consumer_group message_id >>= λ n. pure tt)
        w

  -- `_handle_failure`
  unfoldable pub handle_failure : Text → J → Text → Action W Unit
  unfolding get_delivery_count bury
  handle_failure message_id message e =
      if not c.dlq_enabled
      then pure tt
      else (get_delivery_count message_id >>= λ count.
          if ltb_ℤ (pos count) c.max_retries then pure tt else bury message_id message e count)

  -- the body of the inner loop of `run`
  unfoldable pub handle : Text → J → Action W Unit
  unfolding process_task handle_failure
  handle message_id message w =
      let (r, w') = process_task message_id message w in
      elim r [
        | returned x ↦ (returned tt, w')
        | raised e ↦ handle_failure message_id message e w'
        | interrupted ↦ (interrupted, w')
      ]

  -- the messages of a read, one after the other
  unfoldable pub handle_all : List (Text × J) → Action W Unit
  unfolding handle
  handle_all [] = pure tt
  handle_all ((message_id, message) ∷ messages) =
      handle message_id message >>= λ x. handle_all messages
