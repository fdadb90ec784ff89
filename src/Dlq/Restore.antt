-- ===== src/Dlq/Restore.antt =====
-- What `send_to_dlq` does to the streams, and that `requeue_message` undoes it.
use enterprise_ai_sales_orch.Prelude.{
  ap, Bool-cases, ◌≡◌, ◌++◌, sym, refl, arith, Option, none, some, [], ◌∷◌, ◌≢◌, inl, inr,
}
use enterprise_ai_sales_orch.Prelude.Text.{Text, text_eq_refl}
use enterprise_ai_sales_orch.Dlq.Streams.{add_dead, dead_letter, send_to_dlq, requeue_message}
use enterprise_ai_sales_orch.Dlq.Actions.{bind_returned, or_raise_inv, caught_inv, caught_world}
use enterprise_ai_sales_orch.Prelude.Text.{codes}
use enterprise_ai_sales_orch.Sequencer.Deliveries.{bind_inv}
use enterprise_ai_sales_orch.Harness.Retry.{Reply, returned}
use enterprise_ai_sales_orch.Dlq.Requeue.{requeue_message-Requeued}
use enterprise_ai_sales_orch.Dlq.Codec.{cleaned, from_dict-to_dict, CodecLaws}
use enterprise_ai_sales_orch.Dlq.{
  pure, ◌>>=◌, ℤ, returned, Text, Json, DeadLetterMessage, DeadLetterQueue, Services, Fields,
  to_dict, from_dict, caught, or_raise,
}
use enterprise_ai_sales_orch.Dlq.Moves.{
  Entries, Queues, find, remove, StreamLaws, Requeued, kept, copied, moved, told,
}

module _ {J : Type 0} (id : Text) (j : J) where
  find-append : (d : Entries J) → find id d ≡ none → find id (d ++ (id, j) ∷ []) ≡ some j
  unfolding find
  find-append [] h = rw (text_eq_refl id)
  find-append (e ∷ d) h = ground (arith, h, find-append d)

  remove-absent : (d : Entries J) → find id d ≡ none → remove id d ≡ d
  unfolding find remove
  remove-absent [] h = refl
  remove-absent (e ∷ d) h = ground (arith, h, remove-absent d)

  remove-append : (d : Entries J) → find id d ≡ none → remove id (d ++ (id, j) ∷ []) ≡ d
  unfolding find remove
  remove-append [] h = rw (text_eq_refl id)
  remove-append (e ∷ d) h = ground (arith, h, remove-append d)

module _ {J : Type 0} (json : Json J) (laws : CodecLaws json) (message : J) where
  -- a dead letter of the message, in the fields of its entry
  abbrev IsLetter : Fields → Type 0
  IsLetter fields =
      (m : DeadLetterMessage J) × (from_dict json fields ≡ some m) × (m.original_message ≡ message)

  -- the message of a letter that went back
  requeued_back :
      (id : Text) (fields : Fields) (live dead : Entries J) (new : Text) (answer : Option Text)
      (after : Queues J)
      → IsLetter fields
      → find id dead ≡ none
      → Requeued json id
          (record { live = live; dead = dead ++ (id, json.dict fields) ∷ [] })
          answer
          after
      → answer ≡ some new
      → (after.live ≡ live ++ (new, message) ∷ []) × (after.dead ≡ dead)
  requeued_back id fields live dead new answer after l h kept e = cc
  requeued_back id fields live dead new answer after l h (copied f m n at read) e = cc
  requeued_back id fields live dead new answer after (m', read', same) h
        (moved f m n a at read told_new) e =
      let at_end = find-append id (json.dict fields) dead h in
      let dicts : json.dict fields ≡ json.dict f = cc in
      let fields_same : fields ≡ f = laws.dict_injective fields f dicts in
      let letter : m' ≡ m = cc in
      let back : m.original_message ≡ message = cc in
      let named : n ≡ new = elim told_new [ inl none_told ↦ cc | inr some_told ↦ cc ] in
      (rw (named, back), remove-append id (json.dict fields) dead h)

module _ {J W : Type 0} (json : Json J) (codec : CodecLaws json) (services : Services J W)
    (q : DeadLetterQueue) (entries : Text → W → Entries J) (laws : StreamLaws json services entries)
    (apart : q.source_stream ≢ q.dlq_stream) where
  -- the letter of a message in the dead letters, and nothing else
  abbrev IsSent : J → Text → W → W → Type 0
  IsSent message id w v =
      (fields : Fields) × IsLetter json codec message fields
      × (find id (entries q.dlq_stream w) ≡ none)
      × (entries q.dlq_stream v ≡ entries q.dlq_stream w ++ (id, json.dict fields) ∷ [])
      × (entries q.source_stream v ≡ entries q.source_stream w)

  add_dead-IsSent :
      (m : DeadLetterMessage J) (id : Text) (w : W)
      → (add_dead json services q m w).0 ≡ returned id
      → IsSent m.original_message id w (add_dead json services q m w).1
  unfolding add_dead cleaned
  add_dead-IsSent m id w h =
      let text = codes "TypeError" in
      let add = λ (fields : Fields). services.xadd q.dlq_stream (json.dict fields) in
      let (fields, raises, adds) = bind_inv (or_raise (to_dict json m) text) add w id h in
      let (written, here) = or_raise_inv (to_dict json m) text w fields raises in
      let step : add_dead json services q m w ≡ add fields w =
        rw (bind_returned (or_raise (to_dict json m) text) add w fields raises, here) in
      let adds_here : (add fields w).0 ≡ returned id = rw (sym here) adds in
      (
        fields,
        (cleaned m, from_dict-to_dict json codec m fields written, refl),
        laws.fresh q.dlq_stream id (json.dict fields) w adds_here,
        (rw step (laws.added q.dlq_stream id (json.dict fields) w adds_here)),
        (rw step (
            laws.add_other q.dlq_stream q.source_stream (json.dict fields) w (λ e. apart (sym e)))),
      )

  sending :
      (m : DeadLetterMessage J) (id : Text) (w : W) (r : Reply (Option Text) Text × W)
      → r ≡ caught none (add_dead json services q m >>= λ sent. pure (some sent)) w
      → r.0 ≡ returned (some id)
      → IsSent m.original_message id w r.1
  sending m id w r same h =
      let add = add_dead json services q m in
      let returns = (λ (sent : Text). pure {W = W} (some sent)) in
      let inner : ((add >>= returns) w).0 ≡ returned (some id) =
        caught_inv (add >>= returns) w id (rw (sym same) h) in
      let (sent, adds, names) = bind_inv add returns w (some id) inner in
      let named : sent ≡ id = cc in
      let end : r.1 ≡ (add w).1 =
        rw (same, caught_world (add >>= returns) w, bind_returned add returns w sent adds) in
      rw end (add_dead-IsSent m id w (rw (sym named) adds))

  send_to_dlq-IsSent :
      (message : J) (message_id : Text) (failure : Option (Text × Text)) (count : ℤ) (reason : Text)
      (consumer tenant : Option Text) (id : Text) (w : W)
      → (send_to_dlq json services q message message_id failure count reason consumer tenant w).0
        ≡ returned (some id)
      → IsSent message id w
          (send_to_dlq json services q message message_id failure count reason consumer tenant w).1
  unfolding send_to_dlq dead_letter
  send_to_dlq-IsSent message message_id failure count reason consumer tenant id w h =
      elim (Bool-cases q.enabled) [
        | inl on ↦
            sending
              (dead_letter json services q message message_id failure count reason consumer tenant
                w)
              id w
              (send_to_dlq json services q message message_id failure count reason consumer tenant
                w)
              (rw on) h
        | inr off ↦ absurd (ground (arith, off, h))
      ]

  -- If `send_to_dlq` returns an identifier and then `requeue_message` of it returns one, then both
  -- streams are as they were, with the message, unchanged, behind the entries of its source.
  pub requeue_message-send_to_dlq :
      (message : J) (message_id : Text) (failure : Option (Text × Text)) (count : ℤ) (reason : Text)
      (consumer tenant : Option Text) (id new : Text) (w v u : W)
      → send_to_dlq json services q message message_id failure count reason consumer tenant w
        ≡ (returned (some id), v)
      → requeue_message json services q id v ≡ (returned (some new), u)
      → (entries q.source_stream u ≡ entries q.source_stream w ++ (new, message) ∷ [])
        × (entries q.dlq_stream u ≡ entries q.dlq_stream w)
  unfolding told
  requeue_message-send_to_dlq message message_id failure count reason consumer tenant id new w v u
        hs hb =
      let sent : IsSent message id w v = rw (sym (ap (λ r. r.1) hs)) (
        send_to_dlq-IsSent message message_id failure count reason consumer tenant id w
          (ap (λ r. r.0) hs)) in
      let (fields, letter, fresh, dead, live) = sent in
      let after : Queues J = record {
        live = entries q.source_stream u;
        dead = entries q.dlq_stream u;
      } in
      let before : Queues J = record {
        live = entries q.source_stream v;
        dead = entries q.dlq_stream w ++ (id, json.dict fields) ∷ [];
      } in
      let move : Requeued json id before (some new) after =
        rw (sym dead)
          (rw hb at (requeue_message-Requeued json services q entries laws apart id v)) in
      let (live_after, dead_after) =
        requeued_back json codec message id fields (entries q.source_stream v)
          (entries q.dlq_stream w) new (some new) after letter fresh move refl in
      (rw (sym live) live_after, dead_after)
