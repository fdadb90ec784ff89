-- ===== src/Compound/Whole.antt =====
-- `rollback_step` and `execute_compound`.
use enterprise_ai_sales_orch.Prelude.{
  ℕ, ◌+◌, ◌++◌, Bool, true, false, ◌||◌, Option, none, some, List, [], ◌∷◌, reverse, length,
  if◌then◌else◌,
}
use enterprise_ai_sales_orch.Prelude.Text.{Text, codes, text_eq}
use enterprise_ai_sales_orch.Effects.{Reply, returned, raised, interrupted, Action, ◌>>=◌, pure}
use enterprise_ai_sales_orch.Persistence.Value.{
  Value, null, arr, obj, Items, nil, item, Fields, end, get, set, is_true, is_null,
}
use enterprise_ai_sales_orch.Compound.Data.{
  create, upsert, TableStep, CompoundPayload, Status, success, skipped, failed, Performed,
  performed, rollback, StepResult, CompoundResult, Adapter,
}
use enterprise_ai_sales_orch.Compound.Execution.{execute_step}

-- `result.operation in ("create", "upsert")`
abbrev pub is_insertion : Performed → Bool
is_insertion (performed create) = true
is_insertion (performed upsert) = true
is_insertion _ = false

abbrev pub rollback_result : StepResult → Status → ℕ → Option Text → Option Text → StepResult
rollback_result r status affected error reason = record {
  step_name = r.step_name;
  table = r.table;
  operation = rollback;
  status = status;
  records_affected = affected;
  output = null;
  error = error;
  skipped_reason = reason;
}

-- the state of the loop of `execute_compound`
pub record Progress : Type 0 where
  pub step_results : List StepResult
  pub outputs : Fields
  pub completed : ℕ
  pub skips : ℕ

abbrev pub no_progress : Progress
no_progress = record { step_results = []; outputs = end; completed = 0; skips = 0 }

abbrev pub with_output : Text → Value → Fields → Fields
with_output name output outputs = if is_null output then outputs else set name output outputs

unfoldable pub add_success : Text → StepResult → Progress → Progress
unfolding set
add_success name result p = record {
  step_results = p.step_results ++ result ∷ [];
  outputs = with_output name result.output p.outputs;
  completed = p.completed + 1;
  skips = p.skips;
}

unfoldable pub add_skip : StepResult → Progress → Progress
add_skip result p = record p { step_results = p.step_results ++ result ∷ []; skips = p.skips + 1 }

-- a failure under an `on_error` that the loop does not know
unfoldable pub add_result : StepResult → Progress → Progress
add_result result p = record p { step_results = p.step_results ++ result ∷ [] }

abbrev pub finished : List TableStep → Progress → CompoundResult
finished steps p = record {
  success = true;
  total_steps = length steps;
  completed_steps = p.completed;
  skipped_steps = p.skips;
  failed_step = none;
  error = none;
  step_results = p.step_results;
  outputs = p.outputs;
  rollback_performed = false;
  rollback_results = [];
}

abbrev pub broken_off :
    List TableStep → Bool → Text → StepResult → Progress → List StepResult → CompoundResult
broken_off steps rolled name result p rolled_back = record {
  success = false;
  total_steps = length steps;
  completed_steps = p.completed;
  skipped_steps = p.skips;
  failed_step = some name;
  error = result.error;
  step_results = p.step_results ++ result ∷ [];
  outputs = p.outputs;
  rollback_performed = rolled;
  rollback_results = rolled_back;
}

-- a failed step whose error does not end the operation
abbrev pub pass_over : TableStep → StepResult → Progress → Progress
pass_over step result p =
    if text_eq step.on_error (codes "skip") || text_eq step.on_error (codes "warn")
    then add_skip result p
    else add_result result p

module _ {W : Type 0} (adapter : Adapter W) where
  unfoldable pub delete_item : Text → Value → Action W Value
  unfolding get
  delete_item table (obj d) =
      let id = get (codes "id") d in if is_true id then adapter.delete table id else pure null
  delete_item table v = pure null

  unfoldable pub delete_items : Text → Items → Action W Value
  unfolding delete_item
  delete_items table nil = pure null
  delete_items table (item v vs) = do gone ← delete_item table v; delete_items table vs

  unfoldable pub delete_output : Text → Value → Action W Value
  unfolding delete_items delete_item
  delete_output table (arr vs) = delete_items table vs
  delete_output table v = delete_item table v

  abbrev pub rolled_back : StepResult → Reply Value Text × W → Reply StepResult Text × W
  rolled_back r done = elim done.0 [
    | returned v ↦ (returned (rollback_result r success r.records_affected none none), done.1)
    | raised e ↦ (returned (rollback_result r failed 0 (some e) none), done.1)
    | interrupted ↦ (interrupted, done.1)
  ]

  abbrev pub not_rolled_back : StepResult → StepResult
  not_rolled_back r =
      rollback_result r skipped 0 none (some (codes "Rollback unsupported for this operation"))

  abbrev pub undo : StepResult → Status → Bool → Action W StepResult
  undo r success true = λ w. rolled_back r (delete_output r.table r.output w)
  undo r success false = pure (not_rolled_back r)
  undo r skipped inserted = pure r
  undo r failed inserted = pure r

  unfoldable pub rollback_step : StepResult → Action W StepResult
  unfolding delete_output
  rollback_step r = undo r r.status (is_insertion r.operation)

  unfoldable pub rollback_all : List StepResult → Action W (List StepResult)
  unfolding rollback_step
  rollback_all [] = pure []
  rollback_all (r ∷ rs) = do done ← rollback_step r; more ← rollback_all rs; pure (done ∷ more)

  module _ (repr : Value → Text) (filtering : Bool) (payload : CompoundPayload) where
    unfoldable pub break_off : TableStep → StepResult → Progress → Action W CompoundResult
    unfolding rollback_all
    break_off step result p = do
      undone ←
          if payload.rollback_on_failure then rollback_all (reverse p.step_results) else pure []
      pure (broken_off payload.steps payload.rollback_on_failure step.step_name result p undone)

    -- what follows a step, by the status of its result
    abbrev pub go_on :
        TableStep
        → StepResult
        → Progress
        → (Progress → Action W CompoundResult)
        → Status
        → Action W CompoundResult
    go_on step result p rest success = rest (add_success step.step_name result p)
    go_on step result p rest skipped =
        if payload.continue_on_skip
        then rest (add_skip result p)
        else pure (finished payload.steps (add_skip result p))
    go_on step result p rest failed =
        if text_eq step.on_error (codes "fail")
        then break_off step result p
        else rest (pass_over step result p)

    unfoldable pub run_steps : List TableStep → Progress → Action W CompoundResult
    unfolding execute_step add_success add_skip add_result break_off
    run_steps [] p = pure (finished payload.steps p)
    run_steps (step ∷ steps) p = do
      result ← execute_step adapter repr filtering step p.outputs
      go_on step result p (run_steps steps) result.status

    unfoldable pub execute_compound : Action W CompoundResult
    unfolding run_steps
    execute_compound = run_steps payload.steps no_progress
