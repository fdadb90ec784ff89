-- ===== src/Consumer/Answers.antt =====
-- The answers of the consumer, and their order.
use enterprise_ai_sales_orch.Prelude.{ℕ, ◌≡◌, ◌∙◌, refl, sym, ap, arith, some}
use enterprise_ai_sales_orch.Prelude.Text.{Text, codes}
use enterprise_ai_sales_orch.Harness.Retry.{returned}
use enterprise_ai_sales_orch.Envelope.{Envelope, result_of, error_of}
use enterprise_ai_sales_orch.Sequencer.{SequenceResult, Settings, Services, Action, ◌>>=◌, pure}
use enterprise_ai_sales_orch.Sequencer.Deliveries.{bind_inv}
use enterprise_ai_sales_orch.Sequencer.Harness.{Ending, execute, finished, cancelled, no_round}
use enterprise_ai_sales_orch.Dlq.{Json, or_raise}
use enterprise_ai_sales_orch.Dlq.Actions.{bind_returned, or_raise_inv}
use enterprise_ai_sales_orch.Consumer.{
  failed, ChannelSequencerAgentConsumer, Calls, answer, answer_result, answer_error, conclude,
  run_task, process_task, persist_email_deliveries,
}

-- the identity of a task that an answer carries
abbrev pub SameTask : {P D : Type 0} → Envelope P D → Envelope P D → Type 0
SameTask a b =
    (a.metadata.task_id ≡ b.metadata.task_id)
    × (a.metadata.correlation_id ≡ b.metadata.correlation_id)
    × (a.metadata.tenant_id ≡ b.metadata.tenant_id)

module _ {J P D W : Type 0} (json : Json J) (settings : Settings) (services : Services W)
    (calls : Calls J P D W) (c : ChannelSequencerAgentConsumer) where
  -- The last two calls for a message: an entry on a stream, and then the acknowledgement.
  pub record Posted (stream message_id : Text) (entry : J) (end : W) : Type 0 where
    pub before : W
    pub new : Text
    pub count : ℕ
    pub added : (calls.xadd stream entry before).0 ≡ returned new
    pub acked :
        calls.xack c.task_stream c.consumer_group message_id (calls.xadd stream entry before).1
        ≡ (returned count, end)

  -- the message is answered on the stream of the results, under its own task
  abbrev pub Answered : Text → J → W → Type 0
  Answered message_id message end =
      (envelope : Envelope P D) × (reply : Envelope P D) × (calls.from_redis_message message
        ≡ some envelope)
      × SameTask reply envelope
      × Posted c.result_stream message_id (calls.to_redis_fields reply) end

  -- an entry on a stream, and the acknowledgement
  abbrev pub post : Text → Text → J → Action W Unit
  post stream message_id entry = calls.xadd stream entry >>= λ id.
      calls.xack c.task_stream c.consumer_group message_id >>= λ n. pure tt

  pub post-Posted :
      (stream message_id : Text) (entry : J) (w : W)
      → (post stream message_id entry w).0 ≡ returned tt
      → Posted stream message_id entry (post stream message_id entry w).1
  post-Posted stream message_id entry w h =
      let add = calls.xadd stream entry in
      let ack = calls.xack c.task_stream c.consumer_group message_id in
      let after_ack : ℕ → Action W Unit = λ n. pure tt in
      let after_add : Text → Action W Unit = λ id. ack >>= after_ack in
      let (new, added, later) = bind_inv add after_add w tt h in
      let v = (add w).1 in
      let (count, acked, end) = bind_inv ack after_ack v tt later in
      let world : (post stream message_id entry w).1 ≡ (ack v).1 =
        ap (λ r. r.1)
          (bind_returned add after_add w new added ∙ bind_returned ack after_ack v count acked) in
      record { before = w; new = new; count = count; added = added; acked = rw (world, sym acked) }

  answer_error-Answered :
      (message_id : Text) (message : J) (envelope : Envelope P D) (e : Text) (w : W)
      → calls.from_redis_message message ≡ some envelope
      → (answer_error json settings services calls c message_id envelope e w).0 ≡ returned tt
      → Answered message_id message
          (answer_error json settings services calls c message_id envelope e w).1
  unfolding answer_error answer error_of
  answer_error-Answered message_id message envelope e w read h =
      let reply =
        error_of (calls.new_id w) (calls.time w) e (codes "agents:sequencing")
          (some (codes "CHANNEL_SEQ_ERROR")) envelope in
      (
        envelope,
        reply,
        read,
        (refl, refl, refl),
        post-Posted c.result_stream message_id (calls.to_redis_fields reply) w h,
      )

  answer_result-Answered :
      (message_id : Text) (message : J) (envelope : Envelope P D) (result : SequenceResult) (n : ℕ)
      (w : W)
      → calls.from_redis_message message ≡ some envelope
      → (answer_result json settings services calls c message_id envelope result n w).0
        ≡ returned tt
      → Answered message_id message
          (answer_result json settings services calls c message_id envelope result n w).1
  unfolding answer_result answer result_of
  answer_result-Answered message_id message envelope result n w read h =
      let persist = persist_email_deliveries json settings services calls c envelope result in
      let reply_at : W → Envelope P D = λ v.
        result_of (calls.new_id v) (calls.time v) (calls.result_payload result n)
          (codes "agents:sequencing") envelope in
      let respond : Unit {0} → Action W Unit =
        λ x v. post c.result_stream message_id (calls.to_redis_fields (reply_at v)) v in
      let (x, persisted, answers) = bind_inv persist respond w tt h in
      let v = (persist w).1 in
      let world = ap (λ r. r.1) (bind_returned persist respond w x persisted) in
      rw world (
        envelope,
        reply_at v,
        read,
        (refl, refl, refl),
        post-Posted c.result_stream message_id (calls.to_redis_fields (reply_at v)) v answers,
      )

  conclude-Answered :
      (message_id : Text) (message : J) (envelope : Envelope P D) (end : Ending SequenceResult)
      (w : W)
      → calls.from_redis_message message ≡ some envelope
      → (conclude json settings services calls c message_id envelope end w).0 ≡ returned tt
      → Answered message_id message
          (conclude json settings services calls c message_id envelope end w).1
  unfolding conclude
  conclude-Answered message_id message envelope (finished r n) w read h =
      answer_result-Answered message_id message envelope r n w read h
  conclude-Answered message_id message envelope (failed e n) w read h =
      answer_error-Answered message_id message envelope e w read h
  conclude-Answered message_id message envelope cancelled w read h = ground arith
  conclude-Answered message_id message envelope no_round w read h = ground arith

  pub process_task-Answered :
      (message_id : Text) (message : J) (w : W)
      → (process_task json settings services calls c message_id message w).0 ≡ returned tt
      → Answered message_id message
          (process_task json settings services calls c message_id message w).1
  unfolding process_task run_task
  process_task-Answered message_id message w h =
      let parse = or_raise (calls.from_redis_message message) (codes "ValidationError") in
      let run = run_task json settings services calls c message_id in
      let (envelope, parsed, runs) = bind_inv parse run w tt h in
      let (read, here) =
        or_raise_inv (calls.from_redis_message message) (codes "ValidationError") w envelope
          parsed in
      let world = ap (λ r. r.1) (bind_returned parse run w envelope parsed) in
      let v = (parse w).1 in
      let ran = execute settings services c.harness (calls.request_of envelope.payload) v in
      rw world (conclude-Answered message_id message envelope ran.ending ran.world read runs)
