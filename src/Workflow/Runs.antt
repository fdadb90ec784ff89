-- ===== src/Workflow/Runs.antt =====
-- The state of a workflow through any sequence of updates.
use enterprise_ai_sales_orch.Workflow.{WorkflowStatus, own_fields}
use enterprise_ai_sales_orch.Workflow.Counts.{PercentLaws}
use enterprise_ai_sales_orch.Workflow.Details.{
  names, distinct, names-set_step, step_of-set_step_self, step_of-set_step_other, count_new_steps,
  count_all_zero, new_steps_pending, step_of_pending,
}
use enterprise_ai_sales_orch.Workflow.Says.{
  Says, has_completed, has_failed, overall_status-Says, count_completed, count_failed,
}
use enterprise_ai_sales_orch.Workflow.{is_in_progress, read_steps, seen, pending}
use mathlib.Core.Path.{subst}
use enterprise_ai_sales_orch.Prelude.{
  if◌then◌else◌, sym, keep, sym, keep, ℕ, ◌≡◌, ◌<◌, Option, none, some, true, false, arith, refl,
  List, [], ◌∷◌, length, All, Bool-cases, inl, inr, ◌∙◌, length-map, ap,
}
use enterprise_ai_sales_orch.Prelude.Text.{Text, codes, text_eq, text_eq-eq, listed}
use enterprise_ai_sales_orch.Workflow.{
  Arithmetic, Hash, hset, Steps, StepData, StepStatus, is_completed, is_failed, progress,
  overall_status, text, number, overall, details, own_keys, Update, update_hash, started, written,
  new_steps, set_step, step_of, with_metadata, updated,
}

-- The status of a step that the updates leave: that of the last one that names it.
unfoldable pub latest : Text → StepStatus → List Update → StepStatus
latest k status [] = status
latest k status (u ∷ us) = latest k (if text_eq u.step_name k then u.status else status) us

-- What the tracker writes after some updates: its steps are those of the workflow, each with the status
-- that the last update of it gave, and its own status, percentage and counts are those of the steps.
pub record IsConsistent (a : Arithmetic) (own : List Text) (given : Text → StepStatus) (h : Hash)
    : Type 0 where
  pub steps : Steps
  pub named : names steps ≡ own
  pub details_written : h (codes "steps") ≡ some (details steps)
  pub step_statuses : (k : Text) (s : StepData) → step_of k steps ≡ some s → s.status ≡ given k
  pub status : WorkflowStatus
  pub status_written : h (codes "status") ≡ some (overall status)
  pub says : Says status steps
  pub progress_written :
      h (codes "progress")
      ≡ some (number (a.percent (length (keep has_completed steps)) (length steps)))
  pub completed_written :
      h (codes "completed_steps") ≡ some (number (length (keep has_completed steps)))
  pub failed_written : h (codes "failed_steps") ≡ some (number (length (keep has_failed steps)))

-- the fields that `update_step` writes describe the steps that it writes
written-IsConsistent :
    (a : Arithmetic) (own : List Text) (given : Text → StepStatus) (steps : Steps) (now : ℕ)
    (h : Hash)
    → names steps ≡ own
    → 0 < length own
    → ((k : Text) (s : StepData) → step_of k steps ≡ some s → s.status ≡ given k)
    → IsConsistent a own given (written a steps now h)
unfolding written progress
written-IsConsistent a own given steps now h named some_step statuses =
    let some_length : 0 < length steps =
      ground (arith, some_step, ap length named, length-map (λ e. e.0) steps) in
    record {
      steps = steps;
      named = named;
      details_written = refl;
      step_statuses = statuses;
      status = overall_status a steps;
      status_written = refl;
      says = overall_status-Says a steps;
      progress_written = ground (arith, some_length, count_completed steps);
      completed_written = rw (count_completed steps) refl;
      failed_written = rw (count_failed steps) refl;
    }

-- `update_step` again and again; `none` is an exception
unfoldable pub update_all : Arithmetic → List Update → Hash → Option Hash
update_all a [] h = some h
update_all a (u ∷ us) h = elim (update_hash a true u h) [
  | none ↦ none
  | some h' ↦ update_all a us h'
]

module _ (a : Arithmetic) (own : List Text) (some_step : 0 < length own) where
  -- the statuses after one update
  status_after :
      (u : Update) (given : Text → StepStatus) (steps : Steps) (s : StepData)
      → step_of u.step_name steps ≡ some s
      → ((k : Text) (r : StepData) → step_of k steps ≡ some r → r.status ≡ given k)
      → (k : Text) (r : StepData) → step_of k (set_step u.step_name (updated a u s) steps) ≡ some r
      → r.status ≡ latest k (given k) (u ∷ [])
  unfolding latest updated
  status_after u given steps s there statuses k r e = elim (Bool-cases (text_eq u.step_name k)) [
    | inl same ↦
        let is : step_of k (set_step u.step_name (updated a u s) steps) ≡ some (updated a u s) =
          rw (sym (text_eq-eq u.step_name k same))
            (step_of-set_step_self u.step_name s (updated a u s) steps there) in
        let equal : some r ≡ some (updated a u s) = sym e ∙ is in rw same (ground (arith, equal))
    | inr apart ↦
        rw apart (
          statuses k r (sym (step_of-set_step_other u.step_name k (updated a u s) steps apart) ∙ e))
  ]

  -- the statuses after an update of no step
  unnamed :
      (u : Update) (given : Text → StepStatus) (steps : Steps)
      → step_of u.step_name steps ≡ none
      → ((k : Text) (r : StepData) → step_of k steps ≡ some r → r.status ≡ given k)
      → (k : Text) (r : StepData) → step_of k steps ≡ some r
      → r.status ≡ latest k (given k) (u ∷ [])
  unfolding latest
  unnamed u given steps missing statuses k r e = elim (Bool-cases (text_eq u.step_name k)) [
    | inl same ↦
        let there : step_of u.step_name steps ≡ some r = rw (text_eq-eq u.step_name k same) e in
        absurd (ground (arith, there, missing))
    | inr apart ↦ rw apart (statuses k r e)
  ]

  update_hash-IsConsistent :
      (u : Update) (given : Text → StepStatus) (h : Hash)
      → IsConsistent a own given h
      → (h' : Hash) × (update_hash a true u h ≡ some h')
        × IsConsistent a own (λ k. latest k (given k) (u ∷ [])) h'
  unfolding update_hash seen read_steps
  update_hash-IsConsistent u given h c = by_step (step_of u.step_name c.steps) refl
    where
      by_step :
          (o : Option StepData)
          → step_of u.step_name c.steps ≡ o
          → (h' : Hash) × (update_hash a true u h ≡ some h')
            × IsConsistent a own (λ k. latest k (given k) (u ∷ [])) h'
      by_step none e = (
        h,
        ground (arith, c.details_written, e),
        record {
          steps = c.steps;
          named = c.named;
          details_written = c.details_written;
          step_statuses = unnamed u given c.steps e c.step_statuses;
          status = c.status;
          status_written = c.status_written;
          says = c.says;
          progress_written = c.progress_written;
          completed_written = c.completed_written;
          failed_written = c.failed_written;
        },
      )
      by_step (some s) e =
          let steps = set_step u.step_name (updated a u s) c.steps in
          (
            written a steps u.now h,
            ground (arith, c.details_written, e),
            written-IsConsistent a own (λ k. latest k (given k) (u ∷ [])) steps u.now h
                (names-set_step u.step_name s (updated a u s) c.steps e ∙ c.named) some_step
                (status_after u given c.steps s e c.step_statuses),
          )

  update_all-IsConsistent :
      (us : List Update) (given : Text → StepStatus) (h : Hash)
      → IsConsistent a own given h
      → (h' : Hash) × (update_all a us h ≡ some h')
        × IsConsistent a own (λ k. latest k (given k) us) h'
  unfolding update_all latest
  update_all-IsConsistent [] given h c = (h, refl, c)
  update_all-IsConsistent (u ∷ us) given h c =
      let (h1, once, c1) = update_hash-IsConsistent u given h c in
      let (h2, more, c2) = update_all-IsConsistent us (λ k. latest k (given k) (u ∷ [])) h1 c1 in
      (h2, rw (update_all, once, more), c2)

-- the metadata leaves the tracker's own fields alone, unless it has one of their names
with_metadata-own :
    (metadata : List (Text × Text)) (k : Text) (h : Hash)
    → listed k own_keys ≡ true
    → All (λ e. listed e.0 own_keys ≡ false) metadata
    → with_metadata metadata h k ≡ h k
unfolding with_metadata
with_metadata-own [] k h own free = refl
with_metadata-own ((j, v) ∷ rest) k h own free =
    let apart : text_eq j k ≡ false = elim (Bool-cases (text_eq j k)) [
      | inl same ↦
          absurd (ground (arith, ap (λ t. listed t own_keys) (text_eq-eq j k same), own, free.0))
      | inr differ ↦ differ
    ] in
    with_metadata-own rest k (hset j (text v) h) own free.1 ∙ rw apart

module _ (a : Arithmetic) (percents : PercentLaws a) where
  started-IsConsistent :
      (id : Text) (own : List Text) (metadata : List (Text × Text)) (now : ℕ)
      → 0 < length (distinct own)
      → All (λ e. listed e.0 own_keys ≡ false) metadata
      → IsConsistent a (distinct own) (λ k. pending) (started id own metadata now)
  unfolding started distinct own_fields overall_status progress
  started-IsConsistent id own metadata now some_step free =
      let steps = new_steps own [] in
      let some_length : 0 < length steps = ground (arith, some_step, length-map (λ e. e.0) steps) in
      let kept : (k : Text)
          → listed k own_keys ≡ true
          → started id own metadata now k ≡ own_fields id own now k =
        λ k mine. with_metadata-own metadata k (own_fields id own now) mine free in
      let done = count_new_steps is_completed own [] refl refl in
      let wrong = count_new_steps is_failed own [] refl refl in
      let running = count_all_zero steps (count_new_steps is_in_progress own [] refl refl) in
      let at_start : overall_status a steps ≡ pending =
        ground (arith, done, wrong, running, some_length) in
      let none_done : length (keep has_completed steps) ≡ 0 = sym (count_completed steps) ∙ done in
      let none_wrong : length (keep has_failed steps) ≡ 0 = sym (count_failed steps) ∙ wrong in
      let no_percent : a.percent (length (keep has_completed steps)) (length steps) ≡ 0 =
        rw none_done (percents.nothing (length steps) some_length) in
      record {
        steps = steps;
        named = refl;
        details_written = kept (codes "steps") refl;
        step_statuses = λ k s e. step_of_pending k steps s (new_steps_pending own [] tt) e;
        status = pending;
        status_written = kept (codes "status") refl;
        says = subst (λ t. Says t steps) at_start (overall_status-Says a steps);
        progress_written = kept (codes "progress") refl ∙ rw no_percent;
        completed_written = kept (codes "completed_steps") refl ∙ rw none_done;
        failed_written = kept (codes "failed_steps") refl ∙ rw none_wrong;
      }

  -- However a workflow of at least one step is started, with no metadata under the names of the
  -- tracker's own fields, and whatever updates follow by a client that decodes its replies: no update
  -- raises; the workflow keeps its steps, each of them with the status of the last update that names
  -- it, or pending; its two counts are those of the completed and of the failed steps, and its
  -- percentage is that of the completed ones; and it is partial where some have failed and some are
  -- completed, failed where some have failed and none is completed, completed where all are, in
  -- progress where one is, none has failed and not all are completed, and pending otherwise.
  pub update_all-started :
      (id : Text) (own : List Text) (metadata : List (Text × Text)) (now : ℕ) (us : List Update)
      → 0 < length (distinct own)
      → All (λ e. listed e.0 own_keys ≡ false) metadata
      → (h : Hash) × (update_all a us (started id own metadata now) ≡ some h)
        × IsConsistent a (distinct own) (λ k. latest k pending us) h
  update_all-started id own metadata now us some_step free =
      update_all-IsConsistent a (distinct own) some_step us (λ k. pending)
        (started id own metadata now) (started-IsConsistent id own metadata now some_step free)
