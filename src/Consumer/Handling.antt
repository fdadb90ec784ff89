-- ===== src/Consumer/Handling.antt =====
-- What the consumer does with one message.
use enterprise_ai_sales_orch.Consumer.Poison.{handle-eq, after_task}
use mathlib.Core.Path.{subst}
use enterprise_ai_sales_orch.Prelude.{
  ℕ, ◌≡◌, ◌∙◌, ◌⊎◌, refl, sym, ap, arith, true, false, Bool-cases, inl, inr, some, if◌then◌else◌,
}
use enterprise_ai_sales_orch.Prelude.Int.{pos, ltb_ℤ}
use enterprise_ai_sales_orch.Prelude.Text.{Text, codes}
use enterprise_ai_sales_orch.Harness.Retry.{Reply, returned, raised, interrupted}
use enterprise_ai_sales_orch.Sequencer.{Settings, Services, Action, ◌>>=◌, pure}
use enterprise_ai_sales_orch.Sequencer.Deliveries.{bind_inv}
use enterprise_ai_sales_orch.Dlq.{Fields, Json, DeadLetterMessage, to_dict, or_raise}
use enterprise_ai_sales_orch.Dlq.Actions.{bind_returned, or_raise_inv}
use enterprise_ai_sales_orch.Consumer.{
  dead_message, ChannelSequencerAgentConsumer, Calls, process_task, get_delivery_count, bury,
  dead_message, handle_failure, handle,
}
use enterprise_ai_sales_orch.Consumer.Answers.{
  Posted, Answered, post, post-Posted, process_task-Answered,
}

module _ {J P D W : Type 0} (json : Json J) (settings : Settings) (services : Services W)
    (calls : Calls J P D W) (c : ChannelSequencerAgentConsumer) where
  -- what has become of a message whose handling returns
  pub data Handled (message_id : Text) (message : J) (start end : W) : Type 0 where
    answered :
        Answered json settings services calls c message_id message end
        → Handled message_id message start end
    buried :
        (letter : DeadLetterMessage J) (fields : Fields)
        → letter.original_message ≡ message
        → to_dict json letter ≡ some fields
        → Posted json settings services calls c c.dlq_stream message_id (json.dict fields) end
        → Handled message_id message start end
    left :
        (e : Text) (v : W)
        → process_task json settings services calls c message_id message start ≡ (raised e, v)
        → ((c.dlq_enabled ≡ false) × (end ≡ v))
          ⊎ ((count : ℕ) × (get_delivery_count json settings services calls c message_id v
                ≡ (returned count, end))
              × (ltb_ℤ (pos count) c.max_retries ≡ true))
        → Handled message_id message start end

  bury-Handled :
      (message_id : Text) (message : J) (e : Text) (count : ℕ) (start w : W)
      → (bury json settings services calls c message_id message e count w).0 ≡ returned tt
      → Handled message_id message start
          (bury json settings services calls c message_id message e count w).1
  unfolding bury dead_message
  bury-Handled message_id message e count start w h =
      let letter = dead_message json settings services calls c message_id message e count w in
      let written = or_raise (to_dict json letter) (codes "TypeError") in
      let add : Fields → Action W Unit =
        λ fields. post json settings services calls c c.dlq_stream message_id (json.dict fields) in
      let (fields, writes, adds) = bind_inv written add w tt h in
      let (some_fields, here) =
        or_raise_inv (to_dict json letter) (codes "TypeError") w fields writes in
      let world = ap (λ r. r.1) (bind_returned written add w fields writes) in
      rw world (
        buried letter fields refl some_fields (
          post-Posted json settings services calls c c.dlq_stream message_id (json.dict fields)
            (written w).1 adds))

  handle_failure-Handled :
      (message_id : Text) (message : J) (e : Text) (w v : W)
      → process_task json settings services calls c message_id message w ≡ (raised e, v)
      → (handle_failure json settings services calls c message_id message e v).0 ≡ returned tt
      → Handled message_id message w
          (handle_failure json settings services calls c message_id message e v).1
  unfolding handle_failure
  handle_failure-Handled message_id message e w v fails h = by_switch (Bool-cases c.dlq_enabled)
    where
      count_of : Action W ℕ
      count_of = get_delivery_count json settings services calls c message_id

      next : ℕ → Action W Unit
      next n =
          if ltb_ℤ (pos n) c.max_retries
          then pure tt
          else bury json settings services calls c message_id message e n

      by_count :
          (n : ℕ)
          → (count_of v).0 ≡ returned n
          → (next n (count_of v).1).0 ≡ returned tt
          → Handled message_id message w (next n (count_of v).1).1
      by_count n counted ends = elim (Bool-cases (ltb_ℤ (pos n) c.max_retries)) [
        | inl few ↦
            let same : next n (count_of v).1 ≡ (returned tt, (count_of v).1) = rw few in
            let read : count_of v ≡ (returned n, (count_of v).1) = rw (sym counted) in
            subst (λ r. Handled message_id message w r.1) (sym same)
              (left e v fails (inr (n, read, few)))
        | inr many ↦
            let same : next n (count_of v).1
                ≡ bury json settings services calls c message_id message e n (count_of v).1 =
              rw many in
            subst (λ r. Handled message_id message w r.1) (sym same)
              (bury-Handled message_id message e n w (count_of v).1
                (ap (λ r. r.0) (sym same) ∙ ends))
      ]

      by_switch :
          (c.dlq_enabled ≡ true) ⊎ (c.dlq_enabled ≡ false)
          → Handled message_id message w
              (handle_failure json settings services calls c message_id message e v).1
      by_switch (inr off) =
          let same : handle_failure json settings services calls c message_id message e v
              ≡ (returned tt, v) =
            rw off in
          subst (λ r. Handled message_id message w r.1) (sym same)
            (left e v fails (inl (off, refl)))
      by_switch (inl on) =
          let same : handle_failure json settings services calls c message_id message e v
              ≡ (count_of >>= next) v =
            rw on in
          let (n, counted, ends) = bind_inv count_of next v tt (ap (λ r. r.0) (sym same) ∙ h) in
          subst (λ r. Handled message_id message w r.1)
            (sym (same ∙ bind_returned count_of next v n counted)) (by_count n counted ends)

  after_task-Handled :
      (message_id : Text) (message : J) (w v : W) (r : Reply Unit Text)
      → (after_task json settings services calls c message_id message (r, v)).0 ≡ returned tt
      → process_task json settings services calls c message_id message w ≡ (r, v)
      → Handled message_id message w
          (after_task json settings services calls c message_id message (r, v)).1
  after_task-Handled message_id message w v (returned tt) h same = answered (
      subst (λ x. Answered json settings services calls c message_id message x.1) same
        (process_task-Answered json settings services calls c message_id message w
          (ap (λ x. x.0) same)))
  after_task-Handled message_id message w v (raised e) h same =
      handle_failure-Handled message_id message e w v same h
  after_task-Handled message_id message w v interrupted h same = ground arith

  -- If the handling of a message returns: the message is answered on the stream of the results under
  -- its own task, or it is a dead letter that holds it, and in both cases that entry was added before
  -- the acknowledgement, which is the last call; or its task has raised, and either dead letters are
  -- off and nothing follows, or its deliveries are fewer than the limit and nothing follows but the
  -- reading of their count: no call after the task acknowledges it.
  pub handle-Handled :
      (message_id : Text) (message : J) (w : W)
      → (handle json settings services calls c message_id message w).0 ≡ returned tt
      → Handled message_id message w (handle json settings services calls c message_id message w).1
  handle-Handled message_id message w h = by_reply task.0 refl
    where
      task : Reply Unit Text × W
      task = process_task json settings services calls c message_id message w

      by_reply :
          (r : Reply Unit Text)
          → task.0 ≡ r
          → Handled message_id message w
              (handle json settings services calls c message_id message w).1
      by_reply r e =
          let same : task ≡ (r, task.1) = rw (sym e) in
          let handled =
            handle-eq json settings services calls c message_id message w (r, task.1) same in
          subst (λ x. Handled message_id message w x.1) (sym handled)
            (after_task-Handled message_id message w task.1 r (ap (λ x. x.0) (sym handled) ∙ h)
              same)
