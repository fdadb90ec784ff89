-- ===== src/Dlq/Requeue.antt =====
-- A call of `requeue_message` refines the moves of a dead letter, whichever of the commands fail.
use enterprise_ai_sales_orch.Prelude.{inr, inl, sym, ap, ◌∙◌}
use enterprise_ai_sales_orch.Prelude.{
  sym, ◌≡◌, ◌≢◌, ◌⊎◌, ◌++◌, refl, Option, none, some, List, [], ◌∷◌,
}
use enterprise_ai_sales_orch.Prelude.Text.{Text}
use enterprise_ai_sales_orch.Harness.Retry.{Reply, returned, raised, interrupted}
use enterprise_ai_sales_orch.Sequencer.{Action, ◌>>=◌, pure}
use enterprise_ai_sales_orch.Dlq.{
  Json, DeadLetterMessage, DeadLetterQueue, Services, Fields, from_dict, caught,
}
use enterprise_ai_sales_orch.Dlq.Streams.{requeue_entry, requeue_first, requeue_message}
use enterprise_ai_sales_orch.Dlq.Moves.{
  Entries, Queues, find, remove, StreamLaws, Requeued, kept, copied, moved, told,
}
use enterprise_ai_sales_orch.Dlq.Actions.{bind_cases, told-caught, caught_world}

module _ {J W : Type 0} (json : Json J) (services : Services J W) (q : DeadLetterQueue)
    (entries : Text → W → Entries J) (laws : StreamLaws json services entries)
    (apart : q.source_stream ≢ q.dlq_stream) where
  abbrev queues : W → Queues J
  queues w = record { live = entries q.source_stream w; dead = entries q.dlq_stream w }

  abbrev Refines : Text → W → Reply (Option Text) Text × W → Type 0
  Refines id w r = Requeued json id (queues w) (told r.0) (queues r.1)

  keeps :
      (id : Text) (w : W) (live dead : Entries J)
      → live ≡ entries q.source_stream w
      → dead ≡ entries q.dlq_stream w
      → Requeued json id (queues w) none (record { live = live; dead = dead })
  keeps id w live dead el ed = rw (el, ed) kept

  module _ (id : Text) (fields : Fields) (m : DeadLetterMessage J) (w : W)
      (found : find id (entries q.dlq_stream w) ≡ some (json.dict fields))
      (read : from_dict json fields ≡ some m) where
    abbrev Added : Text → Entries J → Type 0
    Added new live = live ≡ entries q.source_stream w ++ (new, m.original_message) ∷ []

    copies :
        (new : Text) (live dead : Entries J)
        → Added new live
        → dead ≡ entries q.dlq_stream w
        → Requeued json id (queues w) none (record { live = live; dead = dead })
    copies new live dead el ed = rw (el, ed) (copied fields m new found read)

    moves :
        (new : Text) (answer : Option Text) (live dead : Entries J)
        → (answer ≡ none) ⊎ (answer ≡ some new)
        → Added new live
        → dead ≡ remove id (entries q.dlq_stream w)
        → Requeued json id (queues w) answer (record { live = live; dead = dead })
    moves new answer live dead a el ed = rw (el, ed) (moved fields m new answer found read a)

    module _ (new : Text) (v : W) (live : Added new (entries q.source_stream v))
        (dead : entries q.dlq_stream v ≡ entries q.dlq_stream w) where
      abbrev after_delete : W
      after_delete = (services.xdel q.dlq_stream id v).1

      still : Added new (entries q.source_stream after_delete)
      still = laws.delete_other q.dlq_stream q.source_stream id v (λ e. apart (sym e)) ∙ live

      stopped-Refines :
          (r : Reply (Option Text) Text) → told r ≡ none → Refines id w (r, after_delete)
      stopped-Refines r none_told = rw none_told (elim (laws.delete_failed q.dlq_stream id v) [
        | inl same ↦
            copies new (entries q.source_stream after_delete) (entries q.dlq_stream after_delete)
              still (same ∙ dead)
        | inr gone ↦
            moves new none (entries q.source_stream after_delete)
              (entries q.dlq_stream after_delete) (inl refl) still (gone ∙ ap (remove id) dead)
      ])

      delete-Refines : Refines id w ((services.xdel q.dlq_stream id >>= λ n. pure (some new)) v)
      unfolding told
      delete-Refines =
          bind_cases (Refines id w) (services.xdel q.dlq_stream id) (λ n. pure (some new)) v
            (λ n e.
              moves new (some new) (entries q.source_stream after_delete)
                (entries q.dlq_stream after_delete) (inr refl) still
                (laws.deleted q.dlq_stream id n v e ∙ ap (remove id) dead))
            (λ x e. stopped-Refines (raised x) refl) (λ e. stopped-Refines interrupted refl)

    abbrev after_add : W
    after_add = (services.xadd q.source_stream m.original_message w).1

    dead_kept : entries q.dlq_stream after_add ≡ entries q.dlq_stream w
    dead_kept = laws.add_other q.source_stream q.dlq_stream m.original_message w apart

    not_added-Refines : (r : Reply (Option Text) Text) → told r ≡ none → Refines id w (r, after_add)
    not_added-Refines r none_told =
        rw none_told (elim (laws.add_failed q.source_stream m.original_message w) [
          | inl same ↦
              keeps id w (entries q.source_stream after_add) (entries q.dlq_stream after_add) same
                dead_kept
          | inr (new, more) ↦
              copies new (entries q.source_stream after_add) (entries q.dlq_stream after_add) more
                dead_kept
        ])

    add-Refines : Refines id w (
        (services.xadd q.source_stream m.original_message >>= λ new.
        services.xdel q.dlq_stream id >>= λ n. pure (some new))
          w)
    unfolding told
    add-Refines =
        bind_cases (Refines id w) (services.xadd q.source_stream m.original_message)
          (λ new. services.xdel q.dlq_stream id >>= λ n. pure (some new)) w
          (λ new e.
            delete-Refines new after_add (laws.added q.source_stream new m.original_message w e)
              dead_kept)
          (λ x e. not_added-Refines (raised x) refl) (λ e. not_added-Refines interrupted refl)

  entry-Refines :
      (id : Text) (fields : Fields) (w : W)
      → find id (entries q.dlq_stream w) ≡ some (json.dict fields)
      → Refines id w (requeue_entry json services q id fields w)
  unfolding requeue_entry told
  entry-Refines id fields w found = by_message (from_dict json fields) refl
    where
      by_message :
          (o : Option (DeadLetterMessage J))
          → from_dict json fields ≡ o
          → Refines id w (requeue_entry json services q id fields w)
      by_message none e = rw e kept
      by_message (some m) e = rw e (add-Refines id fields m w found e)

  caught-Refines :
      (id : Text) (m : Action W (Option Text)) (w v : W)
      → Refines id w (m v)
      → Refines id w (caught none m v)
  caught-Refines id m w v h = rw (told-caught m v, caught_world m v) h

  module _ (id : Text) (w : W) where
    abbrev after_range : W
    after_range = (services.xrange q.dlq_stream (some id) 1 w).1

    reads : (s : Text) → entries s after_range ≡ entries s w
    reads s = laws.range_reads q.dlq_stream s id w

    unread-Refines : (r : Reply (Option Text) Text) → told r ≡ none → Refines id w (r, after_range)
    unread-Refines r none_told = rw none_told (
        keeps id w (entries q.source_stream after_range) (entries q.dlq_stream after_range)
          (reads q.source_stream) (reads q.dlq_stream))

    found-Refines :
        (l : List (Text × Fields))
        → (services.xrange q.dlq_stream (some id) 1 w).0 ≡ returned l
        → Refines id w (requeue_first json services q id l after_range)
    unfolding requeue_first told
    found-Refines [] e = unread-Refines (returned none) refl
    found-Refines (entry ∷ rest) e =
        let found = laws.range_found q.dlq_stream id entry rest w e in
        rw (sym (reads q.source_stream), sym (reads q.dlq_stream))
          (entry-Refines id entry.1 after_range (ap (find id) (reads q.dlq_stream) ∙ found))

    -- Whatever commands fail: a call of `requeue_message` leaves both streams as they are, or sends the
    -- message of the dead letter back to its source as it was, where the dead letter may stay only if
    -- nothing is returned. An identifier is returned only for a message that is back at its source
    -- and is no longer a dead letter.
    pub requeue_message-Requeued :
        Requeued json id
          (queues w)
          (told (requeue_message json services q id w).0)
          (queues (requeue_message json services q id w).1)
    unfolding requeue_message told
    requeue_message-Requeued =
        caught-Refines id
          (services.xrange q.dlq_stream (some id) 1 >>= requeue_first json services q id) w w
          (bind_cases (Refines id w) (services.xrange q.dlq_stream (some id) 1)
            (requeue_first json services q id) w found-Refines
            (λ x e. unread-Refines (raised x) refl) (λ e. unread-Refines interrupted refl))
