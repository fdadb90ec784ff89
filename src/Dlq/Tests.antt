-- ===== src/Dlq/Tests.antt =====
-- A store of streams in memory, and the dead letters of a queue on it.
use enterprise_ai_sales_orch.Prelude.{
  ℕ, ◌+◌, ◌≡◌, ◌≢◌, ◌⊎◌, inl, inr, ◌++◌, refl, sym, ap, arith, Bool, true, false, Bool-cases,
  Option, none, some, List, [], ◌∷◌, if◌then◌else◌,
}
use enterprise_ai_sales_orch.Prelude.Int.{pos}
use enterprise_ai_sales_orch.Prelude.Text.{Text, codes, text_eq, text_eq_refl, text_eq-eq}
use enterprise_ai_sales_orch.Harness.Retry.{Reply, returned, raised}
use enterprise_ai_sales_orch.Dlq.{
  Fields, Json, DeadLetterMessage, DeadLetterQueue, Services, to_dict, to_fields, from_dict,
  dead_letter_queue,
}
use enterprise_ai_sales_orch.Dlq.Codec.{CodecLaws, cleaned, from_dict-to_dict}
use enterprise_ai_sales_orch.Dlq.Streams.{send_to_dlq, requeue_message}
use enterprise_ai_sales_orch.Dlq.Moves.{Entries, Queues, find, remove, StreamLaws, Requeued, told}
use enterprise_ai_sales_orch.Dlq.Requeue.{requeue_message-Requeued}
use enterprise_ai_sales_orch.Dlq.Restore.{requeue_message-send_to_dlq}

-- a few values of JSON: a text stands for itself
data Value : Type 0 where
  text : Text → Value
  dict : Fields → Value

dumped : Value → Option Text
dumped (text t) = some t
dumped (dict f) = none

abbrev sample_json : Json Value
sample_json = record { dict = dict; dumps = dumped; loads = λ t. some (text t) }

fields_of : Value → Fields
fields_of (text t) = []
fields_of (dict f) = f

sample_laws : CodecLaws sample_json
unfolding dumped fields_of
sample_laws = record { dict_injective = λ f g h. ap fields_of h; loads-dumps = loaded }
  where
    loaded : (j : Value) (t : Text) → dumped j ≡ some t → some (text t) ≡ some j
    loaded (text s) t h = cc
    loaded (dict f) t h = cc

-- the streams by their names, and the number of the next entry
abbrev World : Type 0
World = (Text → Entries Value) × ℕ

changed : Text → Entries Value → World → World
changed s entries (streams, n) = (λ t. if text_eq s t then entries else streams t, n + 1)

appended : Option Value → Text → Value → World → Reply Text Text × World
unfolding changed
appended none s j w = (returned (w.1 ∷ []), changed s (w.0 s ++ (w.1 ∷ [], j) ∷ []) w)
appended (some v) s j w = (raised (codes "ResponseError"), w)

append : Text → Value → World → Reply Text Text × World
unfolding find appended
append s j w = appended (find (w.1 ∷ []) (w.0 s)) s j w

range_of : Text → Option Value → Reply (List (Text × Fields)) Text
range_of id none = returned []
range_of id (some (text t)) = raised (codes "TypeError")
range_of id (some (dict f)) = returned ((id, f) ∷ [])

range : Text → Option Text → ℕ → World → Reply (List (Text × Fields)) Text × World
unfolding find range_of
range s none count w = (returned [], w)
range s (some id) count w = (range_of id (find id (w.0 s)), w)

delete : Text → Text → World → Reply ℕ Text × World
unfolding remove changed
delete s id w = (returned 1, changed s (remove id (w.0 s)) w)

abbrev memory : Services Value World
memory = record {
  now = λ w. codes "2025-10-26T10:00:00";
  xadd = append;
  xrange = range;
  xdel = delete;
  xlen = λ s w. (returned 0, w);
}

abbrev entries_of : Text → World → Entries Value
entries_of s w = w.0 s

apart_lem : (s t : Text) → s ≢ t → text_eq s t ≡ false
apart_lem s t h = elim (Bool-cases (text_eq s t)) [
  | inl same ↦ absurd (h (text_eq-eq s t same))
  | inr other ↦ other
]

module _ (s : Text) (j : Value) (w : World) where
  appended-fresh :
      (o : Option Value) (id : Text)
      → find (w.1 ∷ []) (w.0 s) ≡ o
      → (appended o s j w).0 ≡ returned id
      → find id (w.0 s) ≡ none
  unfolding appended
  appended-fresh none id e h = cc
  appended-fresh (some v) id e h = ground arith

  appended-added :
      (o : Option Value) (id : Text)
      → (appended o s j w).0 ≡ returned id
      → (appended o s j w).1.0 s ≡ w.0 s ++ (id, j) ∷ []
  unfolding appended changed
  appended-added none id h = let same : w.1 ∷ [] ≡ id = cc in rw (text_eq_refl s, same)
  appended-added (some v) id h = ground arith

  appended-either :
      (o : Option Value)
      → ((appended o s j w).1.0 s ≡ w.0 s)
        ⊎ ((id : Text) × ((appended o s j w).1.0 s ≡ w.0 s ++ (id, j) ∷ []))
  unfolding appended
  appended-either none = inr (w.1 ∷ [], appended-added none (w.1 ∷ []) refl)
  appended-either (some v) = inl refl

  appended-other : (o : Option Value) (t : Text) → s ≢ t → (appended o s j w).1.0 t ≡ w.0 t
  unfolding appended changed
  appended-other none t h = rw (apart_lem s t h)
  appended-other (some v) t h = refl

range_of-found :
    (id : Text) (found : Text × Fields) (rest : List (Text × Fields)) (o : Option Value)
    → range_of id o ≡ returned (found ∷ rest)
    → o ≡ some (dict found.1)
unfolding range_of
range_of-found id found rest none h = ground arith
range_of-found id found rest (some (text t)) h = ground arith
range_of-found id found rest (some (dict f)) h = let same : (id, f) ≡ found = cc in rw (sym same)

memory_laws : StreamLaws sample_json memory entries_of
unfolding append range delete changed
memory_laws = record {
  fresh = λ s id j w h. appended-fresh s j w (find (w.1 ∷ []) (w.0 s)) id refl h;
  added = λ s id j w h. appended-added s j w (find (w.1 ∷ []) (w.0 s)) id h;
  add_failed = λ s j w. appended-either s j w (find (w.1 ∷ []) (w.0 s));
  add_other = λ s t j w h. appended-other s j w (find (w.1 ∷ []) (w.0 s)) t h;
  deleted = λ s id n w h. rw (text_eq_refl s);
  delete_failed = λ s id w. inr (rw (text_eq_refl s));
  delete_other = λ s t id w h. rw (apart_lem s t h);
  range_found = λ s id found rest w h. range_of-found id found rest (find id (w.0 s)) h;
  range_reads = λ s t id w. refl;
}

abbrev tasks : Text
tasks = codes "tasks"

abbrev letters : DeadLetterQueue
letters = dead_letter_queue tasks (codes ":dlq") (pos 3) true

apart : letters.source_stream ≢ letters.dlq_stream
unfolding dead_letter_queue
apart h = ground arith

-- the streams where a task has failed three times
abbrev start : World
start = (λ s. [], 7)

abbrev failed : Reply (Option Text) Text × World
failed =
    send_to_dlq sample_json memory letters (text (codes "{}")) (codes "1-0")
      (some (codes "no answer", codes "TimeoutError")) (pos 3) (codes "max_retries_exceeded")
      (some (codes "worker_1")) none start

abbrev requeued : Reply (Option Text) Text × World
requeued = requeue_message sample_json memory letters (7 ∷ []) failed.1

abbrev sample : DeadLetterMessage Value
sample = record {
  original_message = text (codes "{}");
  original_stream = tasks;
  original_message_id = codes "1-0";
  failure_reason = codes "max_retries_exceeded";
  failure_count = pos 12;
  failed_at = codes "2025-10-26T10:00:00";
  last_error = some [];
  error_type = some (codes "TimeoutError");
  consumer_name = none;
  tenant_id = none;
}

from_dict-to_dict_example :
    from_dict sample_json (to_fields sample_json sample (codes "{}")) ≡ some (cleaned sample)
unfolding to_dict dumped
from_dict-to_dict_example =
    from_dict-to_dict sample_json sample_laws sample (to_fields sample_json sample (codes "{}"))
      refl

abbrev queues_of : World → Queues Value
queues_of w = record {
  live = entries_of letters.source_stream w;
  dead = entries_of letters.dlq_stream w;
}

requeue_message-Requeued_example :
    Requeued sample_json (7 ∷ []) (queues_of failed.1) (told requeued.0) (queues_of requeued.1)
requeue_message-Requeued_example =
    requeue_message-Requeued sample_json memory letters entries_of memory_laws apart (7 ∷ [])
      failed.1

requeue_message-send_to_dlq_example :
    (requeued.1.0 letters.source_stream ≡ (8 ∷ [], text (codes "{}")) ∷ [])
    × (requeued.1.0 letters.dlq_stream ≡ [])
unfolding send_to_dlq requeue_message append range delete dead_letter_queue to_dict dumped from_dict
    enterprise_ai_sales_orch.Prelude.Text.decimal
requeue_message-send_to_dlq_example =
    requeue_message-send_to_dlq sample_json sample_laws memory letters entries_of memory_laws apart
      (text (codes "{}")) (codes "1-0") (some (codes "no answer", codes "TimeoutError")) (pos 3)
      (codes "max_retries_exceeded") (some (codes "worker_1")) none (7 ∷ []) (8 ∷ []) start failed.1
      requeued.1 refl refl
