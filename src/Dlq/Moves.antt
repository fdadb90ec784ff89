-- ===== src/Dlq/Moves.antt =====
-- core/dlq.py: what the operations of the queue may do to the two streams, and what the commands of the
-- client promise on the entries of the streams.
use enterprise_ai_sales_orch.Prelude.{ℕ, if◌then◌else◌}
use enterprise_ai_sales_orch.Prelude.{◌≡◌, ◌≢◌, ◌⊎◌, ◌++◌, Option, none, some, List, [], ◌∷◌}
use enterprise_ai_sales_orch.Prelude.Text.{Text, text_eq}
use enterprise_ai_sales_orch.Harness.Retry.{Reply, returned, raised, interrupted}
use enterprise_ai_sales_orch.Dlq.{Json, DeadLetterMessage, Services, Fields, from_dict}

-- the entries of a stream, with their identifiers
abbrev pub Entries : Type 0 → Type 0
Entries J = List (Text × J)

unfoldable pub find : {J : Type 0} → Text → Entries J → Option J
find k [] = none
find k ((j, v) ∷ d) = if text_eq j k then some v else find k d

unfoldable pub remove : {J : Type 0} → Text → Entries J → Entries J
remove k [] = []
remove k ((j, v) ∷ d) = if text_eq j k then remove k d else (j, v) ∷ remove k d

-- the entries of the source and the dead letters
pub record Queues (J : Type 0) : Type 0 where
  pub live : Entries J
  pub dead : Entries J

-- The documented behaviour of the commands on the entries of the streams. `XADD` appends an entry with a new identifier and
-- `XDEL` removes one, each on its stream alone; a command that raises may have run or not. `XRANGE`
-- from an identifier to the same returns the entry of that identifier, if there is one.
pub record StreamLaws {J W : Type 0} (json : Json J) (services : Services J W)
    (entries : Text → W → Entries J) : Type 0 where
  pub fresh :
      (s id : Text) (j : J) (w : W)
      → (services.xadd s j w).0 ≡ returned id
      → find id (entries s w) ≡ none
  pub added :
      (s id : Text) (j : J) (w : W)
      → (services.xadd s j w).0 ≡ returned id
      → entries s (services.xadd s j w).1 ≡ entries s w ++ (id, j) ∷ []
  pub add_failed :
      (s : Text) (j : J) (w : W)
      → (entries s (services.xadd s j w).1 ≡ entries s w)
        ⊎ ((id : Text) × (entries s (services.xadd s j w).1 ≡ entries s w ++ (id, j) ∷ []))
  pub add_other :
      (s t : Text) (j : J) (w : W) → s ≢ t → entries t (services.xadd s j w).1 ≡ entries t w
  pub deleted :
      (s id : Text) (n : ℕ) (w : W)
      → (services.xdel s id w).0 ≡ returned n
      → entries s (services.xdel s id w).1 ≡ remove id (entries s w)
  pub delete_failed :
      (s id : Text) (w : W)
      → (entries s (services.xdel s id w).1 ≡ entries s w)
        ⊎ (entries s (services.xdel s id w).1 ≡ remove id (entries s w))
  pub delete_other :
      (s t id : Text) (w : W) → s ≢ t → entries t (services.xdel s id w).1 ≡ entries t w
  pub range_found :
      (s id : Text) (found : Text × Fields) (rest : List (Text × Fields)) (w : W)
      → (services.xrange s (some id) 1 w).0 ≡ returned (found ∷ rest)
      → find id (entries s w) ≡ some (json.dict found.1)
  pub range_reads :
      (s t id : Text) (w : W) → entries t (services.xrange s (some id) 1 w).1 ≡ entries t w

-- What a call of `requeue_message` may do, and what it returns: the message goes back to the source as
-- it was, and its dead letter away, or it keeps its dead letter.
pub data Requeued {J : Type 0} (json : Json J) (id : Text) (q : Queues J)
    : Option Text → Queues J → Type 0 where
  kept : Requeued json id q none q
  copied :
      (fields : Fields) (m : DeadLetterMessage J) (new : Text)
      → find id q.dead ≡ some (json.dict fields)
      → from_dict json fields ≡ some m
      → Requeued json id q none
          (record { live = q.live ++ (new, m.original_message) ∷ []; dead = q.dead })
  moved :
      (fields : Fields) (m : DeadLetterMessage J) (new : Text) (answer : Option Text)
      → find id q.dead ≡ some (json.dict fields)
      → from_dict json fields ≡ some m
      → (answer ≡ none) ⊎ (answer ≡ some new)
      → Requeued json id q answer
          (record { live = q.live ++ (new, m.original_message) ∷ []; dead = remove id q.dead })

-- what a reply of an optional identifier tells
unfoldable pub told : Reply (Option Text) Text → Option Text
told (returned o) = o
told (raised e) = none
told interrupted = none
