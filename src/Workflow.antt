-- ===== src/Workflow.antt =====
-- core/utils/workflow_progress.py: the tracker of the steps of a workflow, on hashes of Redis.
-- A hash is a function of its keys. What a field holds is kept as the value that was written, where a
-- reader sees a text of it: a number, a status, a time or the steps, and a text for the metadata.
-- The arithmetic of floats is a parameter, and so are the steps that a text of the metadata may hold.
pub mod Counts
pub mod Says
pub mod Details
pub mod Runs
pub mod Active
mod Tests
use enterprise_ai_sales_orch.Prelude.{
  ℕ, ◌+◌, ◌==◌, ltb, Bool, true, false, ◌&&◌, ◌||◌, not, Option, none, some, List, [], ◌∷◌, any,
  length, if◌then◌else◌,
}
use enterprise_ai_sales_orch.Prelude.Int.{ℤ, pos}
use enterprise_ai_sales_orch.Prelude.Text.{Text, codes, text_eq, truthy, listed}
use enterprise_ai_sales_orch.Prelude.Number.{int_of}

-- the status of a step; `update_step` takes any text
pub data StepStatus : Type 0 where
  pending in_progress completed failed skipped : StepStatus
  other : Text → StepStatus

pub data WorkflowStatus : Type 0 where
  pending in_progress completed failed partial : WorkflowStatus

-- the details of a step; a time is in microseconds
pub record StepData : Type 0 where
  pub status : StepStatus
  pub started_at : Option ℕ
  pub completed_at : Option ℕ
  pub duration_ms : Option ℤ
  pub result_count : Option ℤ
  pub error : Option Text

-- `steps_data`, in the order of its keys
abbrev pub Steps : Type 0
Steps = List (Text × StepData)

pub data Field : Type 0 where
  text : Text → Field
  number : ℕ → Field
  overall : WorkflowStatus → Field
  time : ℕ → Field
  details : Steps → Field

abbrev pub Hash : Type 0
Hash = Text → Option Field

abbrev pub hset : Text → Field → Hash → Hash
hset k v h j = if text_eq k j then some v else h j

-- The percentage `int((a / b) * 100)`, the milliseconds between two times, and `json.loads` of a text
-- that is not the tracker's.
pub record Arithmetic : Type 0 where
  pub percent : ℕ → ℕ → ℕ
  pub milliseconds : ℕ → ℕ → ℤ
  pub loads : Text → Option Steps

abbrev pub is_completed : StepStatus → Bool
is_completed completed = true
is_completed _ = false

abbrev pub is_failed : StepStatus → Bool
is_failed failed = true
is_failed _ = false

abbrev pub is_in_progress : StepStatus → Bool
is_in_progress in_progress = true
is_in_progress _ = false

abbrev pub is_skipped : StepStatus → Bool
is_skipped skipped = true
is_skipped _ = false

-- `sum(1 for s in steps_data.values() if p(s["status"]))`
unfoldable pub count_steps : (StepStatus → Bool) → Steps → ℕ
count_steps p [] = 0
count_steps p ((name, s) ∷ steps) = (if p s.status then 1 else 0) + count_steps p steps

unfoldable pub some_in_progress : Steps → Bool
some_in_progress [] = false
some_in_progress ((name, s) ∷ steps) = is_in_progress s.status || some_in_progress steps

-- `steps_data.get(name)`
unfoldable pub step_of : Text → Steps → Option StepData
step_of k [] = none
step_of k ((name, s) ∷ steps) = if text_eq name k then some s else step_of k steps

-- `steps_data[name] = step`, on the place of the name or at the end
unfoldable pub set_step : Text → StepData → Steps → Steps
set_step k s [] = (k, s) ∷ []
set_step k s ((name, t) ∷ steps) =
    if text_eq name k then (name, s) ∷ steps else (name, t) ∷ set_step k s steps

abbrev pub new_step : StepData
new_step = record {
  status = pending;
  started_at = none;
  completed_at = none;
  duration_ms = none;
  result_count = none;
  error = none;
}

-- the loop over the names in `start_workflow`
unfoldable pub new_steps : List Text → Steps → Steps
unfolding set_step
new_steps [] steps = steps
new_steps (name ∷ names) steps = new_steps names (set_step name new_step steps)

-- the scalars of the metadata, as texts
unfoldable pub with_metadata : List (Text × Text) → Hash → Hash
with_metadata [] h = h
with_metadata ((k, v) ∷ rest) h = with_metadata rest (hset k (text v) h)

-- the tracker's own fields of a new workflow
unfoldable pub own_fields : Text → List Text → ℕ → Hash
unfolding new_steps
own_fields correlation_id steps now = hset (codes "correlation_id") (text correlation_id) (
    hset (codes "status") (overall pending) (
      hset (codes "progress") (number 0) (
        hset (codes "total_steps") (number (length steps)) (
          hset (codes "completed_steps") (number 0) (
            hset (codes "failed_steps") (number 0) (
              hset (codes "created_at") (time now) (
                hset (codes "updated_at") (time now)
                  (hset (codes "steps") (details (new_steps steps [])) (λ k. none)))))))))

-- the state that `start_workflow` writes
unfoldable pub started : Text → List Text → List (Text × Text) → ℕ → Hash
unfolding with_metadata own_fields
started correlation_id steps metadata now =
    with_metadata metadata (own_fields correlation_id steps now)

-- a call of `update_step`
pub record Update : Type 0 where
  pub step_name : Text
  pub status : StepStatus
  pub result_count : Option ℤ
  pub error : Option Text
  pub now : ℕ

abbrev pub is_finished : StepStatus → Bool
is_finished s = is_completed s || is_failed s || is_skipped s

-- `x or y`, where `x` is a time or `None`
abbrev pub or_now : Option ℕ → ℕ → Option ℕ
or_now none now = some now
or_now (some t) now = some t

-- What `state.get` finds: the keys of the program are texts, and those of a client that does not decode
-- the replies are bytes.
unfoldable pub seen : Bool → Hash → Hash
seen decodes h k = if decodes then h k else none

module _ (a : Arithmetic) where
  unfoldable pub duration : Option ℕ → ℕ → Option ℤ → Option ℤ
  duration none now d = d
  duration (some start) now d = some (a.milliseconds start now)

  -- the step as `update_step` leaves it
  unfoldable pub updated : Update → StepData → StepData
  unfolding duration
  updated u s =
      let started = if is_in_progress u.status then or_now s.started_at u.now else s.started_at in
      let done = is_finished u.status in
      record {
        status = u.status;
        started_at = started;
        completed_at = if done then or_now s.completed_at u.now else s.completed_at;
        duration_ms = if done then duration started u.now s.duration_ms else s.duration_ms;
        result_count = elim u.result_count [ none ↦ s.result_count | some n ↦ some n ];
        error = elim u.error [ none ↦ s.error | some e ↦ if truthy e then some e else s.error ];
      }

  unfoldable pub progress : Steps → ℕ
  unfolding count_steps
  progress steps =
      if ltb 0 (length steps) then a.percent (count_steps is_completed steps) (length steps) else 0

  unfoldable pub overall_status : Steps → WorkflowStatus
  unfolding count_steps some_in_progress
  overall_status steps =
      let done = count_steps is_completed steps in
      let wrong = count_steps is_failed steps in
      if ltb 0 wrong && ltb 0 done
      then partial
      else if ltb 0 wrong && (done == 0)
      then failed
      else if done == length steps
      then completed
      else if some_in_progress steps
      then in_progress
      else pending

  -- `json.loads(state.get("steps", "{}"))`; `none` is an exception
  unfoldable pub read_steps : Option Field → Option Steps
  read_steps none = some []
  read_steps (some (text t)) = a.loads t
  read_steps (some (number n)) = none
  read_steps (some (overall s)) = none
  read_steps (some (time t)) = none
  read_steps (some (details steps)) = some steps

  -- what `update_step` writes of the steps
  unfoldable pub written : Steps → ℕ → Hash → Hash
  unfolding progress overall_status
  written steps now h = hset (codes "status") (overall (overall_status steps)) (
      hset (codes "progress") (number (progress steps)) (
        hset (codes "completed_steps") (number (count_steps is_completed steps)) (
          hset (codes "failed_steps") (number (count_steps is_failed steps))
            (hset (codes "updated_at") (time now) (hset (codes "steps") (details steps) h)))))

  -- `update_step` on the state of an existing workflow; `none` is an exception
  unfoldable pub update_hash : Bool → Update → Hash → Option Hash
  unfolding seen read_steps step_of updated set_step written
  update_hash decodes u h = elim (read_steps (seen decodes h (codes "steps"))) [
    | none ↦ none
    | some steps ↦ elim (step_of u.step_name steps) [
      | none ↦ some h
      | some s ↦ some (written (set_step u.step_name (updated u s) steps) u.now h)
    ]
  ]

-- the workflows by their identifiers; a hash that is not there is one without fields
abbrev pub Store : Type 0
Store = Text → Option Hash

abbrev pub put : Text → Hash → Store → Store
put k h store j = if text_eq k j then some h else store j

unfoldable pub start_workflow : Bool → Text → List Text → List (Text × Text) → ℕ → Store → Store
unfolding started
start_workflow enabled id steps metadata now store =
    if not enabled then store else put id (started id steps metadata now) store

unfoldable pub update_step : Arithmetic → Bool → Bool → Text → Update → Store → Option Store
unfolding update_hash
update_step a enabled decodes id u store = if not enabled then some store else elim (store id) [
  | none ↦ some store
  | some h ↦ elim (update_hash a decodes u h) [ none ↦ none | some h' ↦ some (put id h' store) ]
]

-- what `get_progress` returns
pub record Progress : Type 0 where
  pub correlation_id : Option Field
  pub status : Option Field
  pub progress : ℤ
  pub total_steps : ℤ
  pub completed_steps : ℤ
  pub failed_steps : ℤ
  pub created_at : Option Field
  pub updated_at : Option Field
  pub steps : Steps
  pub extra : Hash

-- `int(state.get(key, 0))`; `none` is a `ValueError`
unfoldable pub read_int : Option Field → Option ℤ
unfolding int_of
read_int none = some (pos 0)
read_int (some (text t)) = int_of t
read_int (some (number n)) = some (pos n)
read_int (some (overall s)) = none
read_int (some (time t)) = none
read_int (some (details steps)) = none

abbrev pub own_keys : List Text
own_keys =
    codes "steps"
    ∷ codes "correlation_id"
    ∷ codes "status"
    ∷ codes "progress"
    ∷ codes "total_steps"
    ∷ codes "completed_steps"
    ∷ codes "failed_steps"
    ∷ codes "created_at"
    ∷ codes "updated_at"
    ∷ []

infixl 5 ◌>>=◌
abbrev ◌>>=◌ : {A B : Type 0} → Option A → (A → Option B) → Option B
◌>>=◌ none f = none
◌>>=◌ (some a) f = f a

module _ (a : Arithmetic) where
  unfoldable pub progress_of : Hash → Option Progress
  unfolding read_steps read_int
  progress_of h = read_steps a (h (codes "steps")) >>= λ steps.
      read_int (h (codes "progress")) >>= λ progress.
      read_int (h (codes "total_steps")) >>= λ total.
      read_int (h (codes "completed_steps")) >>= λ completed_steps.
      read_int (h (codes "failed_steps")) >>= λ failed_steps. some (record {
        correlation_id = h (codes "correlation_id");
        status = h (codes "status");
        progress = progress;
        total_steps = total;
        completed_steps = completed_steps;
        failed_steps = failed_steps;
        created_at = h (codes "created_at");
        updated_at = h (codes "updated_at");
        steps = steps;
        extra = λ k. if listed k own_keys then none else h k;
      })
