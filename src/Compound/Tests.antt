-- ===== src/Compound/Tests.antt =====
-- Compound operations on an adapter that keeps a list of its deletions.
use enterprise_ai_sales_orch.Prelude.{
  if◌then◌else◌, ◌≡◌, ◌++◌, true, false, none, some, List, [], ◌∷◌, refl, reverse,
}
use enterprise_ai_sales_orch.Prelude.Int.{pos}
use enterprise_ai_sales_orch.Prelude.Text.{Text, codes, text_eq}
use enterprise_ai_sales_orch.Effects.{returned, raised, Action, pure}
use enterprise_ai_sales_orch.Persistence.Value.{
  Value, null, number, text, arr, obj, nil, Fields, end, entry, find, is_true,
}
use enterprise_ai_sales_orch.Compound.References.{
  resolved, resolve_references, resolve_value, match_reference,
}
use enterprise_ai_sales_orch.Compound.Conditions.{
  ConditionalCheck, evaluate_condition, field_value, above, Opposite, evaluate_condition-Opposite,
}
use enterprise_ai_sales_orch.Compound.Data.{
  create, upsert, TableStep, CompoundPayload, success, StepResult, CompoundResult, Adapter, with_id,
}
use enterprise_ai_sales_orch.Compound.Execution.{execute_step, succeeded, failed_with}
use enterprise_ai_sales_orch.Compound.Whole.{rollback_result, execute_compound}
use enterprise_ai_sales_orch.Compound.Builders.{get_or, message_of}
use enterprise_ai_sales_orch.Compound.Injected.{message_of-failed}
use enterprise_ai_sales_orch.Compound.Shape.{SameShape, resolve_references-SameShape}
use enterprise_ai_sales_orch.Compound.Lookup.{resolve_value-find}
use enterprise_ai_sales_orch.Compound.Rollback.{Deletion, DeletesLogged, all_to_undo}
use enterprise_ai_sales_orch.Compound.Undoing.{execute_compound-undone}
use enterprise_ai_sales_orch.Compound.Accounts.{Accounts}
use enterprise_ai_sales_orch.Compound.Accounting.{execute_compound-Accounts}

-- each row gets the id of its table; nothing is written to "messages"
stored : Text → Value → Action (List Deletion) Value
stored table v w =
    if text_eq table (codes "messages")
    then (raised (codes "down"), w)
    else (returned (with_id v (text table)), w)

logged : Text → Value → Action (List Deletion) Value
logged table id w = (returned null, w ++ (table, id) ∷ [])

abbrev log_adapter : Adapter (List Deletion)
log_adapter = record {
  write = stored;
  batch_write = λ table vs. pure vs;
  upsert = λ table v keys. stored table v;
  query = λ table filters limit. pure (arr nil);
  delete = logged;
  get_columns = λ table. pure none;
  sleep = λ n w. w;
}

log_laws : DeletesLogged log_adapter (λ w. w)
unfolding logged
log_laws = record { logged = λ table v w. (null, refl, refl) }

shown : Value → Text
shown v = []

abbrev named : Fields
named = entry (codes "name") (text (codes "Ada")) end

abbrev lead_step : TableStep
lead_step = record {
  step_name = codes "lead";
  table = codes "leads";
  operation = upsert;
  payload = obj named;
  where_clause = none;
  match_on = some (codes "email" ∷ []);
  condition = none;
  on_error = codes "fail";
}

abbrev message_step : TableStep
message_step = record {
  step_name = codes "message";
  table = codes "messages";
  operation = create;
  payload = obj (entry (codes "lead_id") (text (codes "$ref:lead.id")) end);
  where_clause = none;
  match_on = none;
  condition = none;
  on_error = codes "fail";
}

-- the name of the lead, a text, is compared with a number
abbrev compared_step : TableStep
compared_step = record message_step {
  condition =
      some
        (record { field = codes "$ref:lead.name"; operator = codes "gt"; value = number (pos 3) });
}

abbrev two_steps : TableStep → CompoundPayload
two_steps second = record {
  steps = lead_step ∷ second ∷ [];
  rollback_on_failure = true;
  continue_on_skip = true;
}

abbrev outputs : Fields
outputs = entry (codes "lead") (obj (entry (codes "id") (number (pos 7)) end)) end

abbrev is_above : ConditionalCheck
is_above = record { field = codes "$ref:lead.id"; operator = codes "gt"; value = number (pos 3) }

evaluate_condition-Opposite_example :
    Opposite shown
      (evaluate_condition shown is_above outputs)
      (evaluate_condition shown (record is_above { operator = codes "lte" }) outputs)
unfolding field_value
evaluate_condition-Opposite_example =
    evaluate_condition-Opposite shown is_above outputs (number (pos 7)) (codes "lte") above refl

resolve_references-SameShape_example :
    SameShape
      (obj (entry (codes "lead_id") (text (codes "$ref:lead.id")) named))
      (obj (entry (codes "lead_id") (number (pos 7)) named))
unfolding resolve_references
resolve_references-SameShape_example =
    resolve_references-SameShape (obj (entry (codes "lead_id") (text (codes "$ref:lead.id")) named))
      outputs (obj (entry (codes "lead_id") (number (pos 7)) named)) refl

resolve_value-find_example :
    resolve_value (text (codes "$ref:lead.id or so")) outputs ≡ resolved (number (pos 7))
unfolding find
resolve_value-find_example =
    resolve_value-find (codes "lead") (codes "id") (codes " or so")
      (record { initial = refl; words = (refl, (refl, (refl, (refl, tt)))) })
      (record { initial = refl; words = (refl, (refl, tt)) }) refl outputs
      (entry (codes "id") (number (pos 7)) end) (number (pos 7)) refl refl

abbrev lead_row : Value
lead_row =
    obj (entry (codes "name") (text (codes "Ada")) (entry (codes "id") (text (codes "leads")) end))

abbrev lead_done : StepResult
lead_done = succeeded log_adapter shown false lead_step (lead_row, 1)

abbrev message_failed : StepResult
message_failed = failed_with log_adapter shown false message_step (codes "down")

-- the message fails, and the lead is rolled back
abbrev undone_result : CompoundResult
undone_result = record {
  success = false;
  total_steps = 2;
  completed_steps = 1;
  skipped_steps = 0;
  failed_step = some (codes "message");
  error = some (codes "down");
  step_results = lead_done ∷ message_failed ∷ [];
  outputs = entry (codes "lead") lead_row end;
  rollback_performed = true;
  rollback_results = rollback_result lead_done success 1 none none ∷ [];
}

undone_run :
    (execute_compound log_adapter shown false (two_steps message_step) []).0
    ≡ returned undone_result
unfolding execute_compound stored logged is_true
undone_run = refl

execute_compound-Accounts_example : Accounts (two_steps message_step) undone_result
execute_compound-Accounts_example =
    execute_compound-Accounts log_adapter shown false (two_steps message_step) [] undone_result
      undone_run

execute_compound-undone_example :
    (prior : List StepResult) × (last : StepResult) × (before : List Deletion)
    × (undone_result.step_results ≡ prior ++ last ∷ [])
    × ((execute_compound log_adapter shown false (two_steps message_step) []).1
        ≡ before ++ all_to_undo (reverse prior))
execute_compound-undone_example =
    execute_compound-undone log_adapter shown false (two_steps message_step) (λ w. w) []
      undone_result log_laws refl undone_run refl

abbrev bad_mail : Fields
bad_mail = entry (codes "body") (text (codes "$ref: see below")) end

abbrev stored_conversation : Fields
stored_conversation =
    entry (codes "conversation") (obj (entry (codes "id") (text (codes "c1")) end)) end

message_of-failed_example :
    execute_step log_adapter shown false (message_of bad_mail) stored_conversation [] ≡ (
      returned (
          failed_with log_adapter shown false
            (message_of bad_mail)
            (codes "Invalid reference format: $ref: see below")),
      [],
    )
unfolding resolve_value get_or match_reference
message_of-failed_example =
    message_of-failed log_adapter shown false bad_mail stored_conversation (codes "$ref: see below")
      (text (codes "c1")) [] refl refl refl refl
