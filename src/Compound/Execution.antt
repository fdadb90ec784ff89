-- ===== src/Compound/Execution.antt =====
-- `execute_step`, `rollback_step` and `execute_compound`. What is written to the log is left out.
use enterprise_ai_sales_orch.Prelude.{
  ℕ, zero, suc, ◌+◌, ◌-◌, ◌^◌, ltb, Bool, true, false, ◌&&◌, Option, none, some, List, [], ◌∷◌,
  if◌then◌else◌,
}
use enterprise_ai_sales_orch.Prelude.Text.{Text, codes, or_text}
use enterprise_ai_sales_orch.Effects.{
  Reply, returned, raised, interrupted, Action, ◌>>=◌, pure, caught, or_raise,
}
use enterprise_ai_sales_orch.Persistence.Value.{
  find, Value, null, arr, obj, Items, nil, item, Fields, end, entry, get, is_true, or_null,
}
use enterprise_ai_sales_orch.Compound.References.{
  Resolved, resolved, unresolved, resolve_references, resolve_fields,
}
use enterprise_ai_sales_orch.Compound.Conditions.{evaluate_condition}
use enterprise_ai_sales_orch.Compound.Data.{
  create, update, upsert, delete, TableStep, success, skipped, failed, performed, StepResult,
  Adapter, or_dict, count_items, one_if, is_transient_error, filter_known_columns,
  normalized_on_conflict, normalize_result, elements, id_of, with_id, id_column,
}

abbrev pub lift : {W A : Type 0} → Resolved A → Action W A
lift (resolved a) w = (returned a, w)
lift (unresolved e) w = (raised e, w)

-- the output of a step that found nothing to change
abbrev pub nothing_done : Value × ℕ
nothing_done = (null, 0)

module _ {W : Type 0} (adapter : Adapter W) where
  -- the rounds left, the number of this one, and the last exception
  unfoldable pub retry_upsert_from : ℕ → ℕ → Text → Text → Value → List Text → Action W Value
  unfolding is_transient_error
  retry_upsert_from zero attempt last table v keys w = (raised last, w)
  retry_upsert_from (suc rounds) attempt last table v keys w =
      let (reply, w') = adapter.upsert table v keys w in
      elim reply [
        | returned a ↦ (returned a, w')
        | interrupted ↦ (interrupted, w')
        | raised e ↦ elim (ltb attempt 3 && is_transient_error e) [
          | true ↦
              retry_upsert_from rounds (attempt + 1) e table v keys
                (adapter.sleep (2 ^ (attempt - 1)) w')
          | false ↦ (raised e, w')
        ]
      ]

  unfoldable pub retry_upsert : Text → Value → List Text → Action W Value
  unfolding retry_upsert_from
  retry_upsert = retry_upsert_from 3 1 []

  unfoldable pub create_step : Text → Value → Action W (Value × ℕ)
  unfolding count_items or_dict normalize_result
  create_step table (arr vs) =
      adapter.batch_write table vs >>= λ out. pure (arr out, count_items out)
  create_step table v = adapter.write table (or_dict v) >>= λ out.
      pure (normalize_result out, one_if (normalize_result out))

  -- the loop over the matches of an update: the ids that it changed
  unfoldable pub update_each : Text → Value → Items → Action W Items
  unfolding retry_upsert id_of with_id
  update_each table v nil = pure nil
  update_each table v (item m ms) =
      let id = or_null (id_of m) in
      let rest = update_each table v ms in
      if is_true id
      then (do done ← retry_upsert table (with_id v id) id_column; ids ← rest; pure (item id ids))
      else rest

  -- `matches.get("data", [])` of a dictionary
  abbrev unwrapped : Value → Value
  unwrapped (obj d) = elim (find (codes "data") d) [ none ↦ arr nil | some v ↦ v ]
  unwrapped v = v

  unfoldable pub update_step : Text → Value → Option Fields → Action W (Value × ℕ)
  unfolding update_each elements get with_id normalize_result find
  update_step table v none = λ w. (raised (codes "UPDATE requires 'where'"), w)
  update_step table v (some end) = λ w. (raised (codes "UPDATE requires 'where'"), w)
  update_step table v (some (entry k x d)) =
      let where_clause = entry k x d in
      let id = get (codes "id") where_clause in
      if is_true id
      then (do
        out ← adapter.upsert table (with_id v id) id_column
        pure (normalize_result out, one_if (normalize_result out)))
      else (do
        found ← adapter.query table where_clause 1000
        if is_true (unwrapped found)
            then (do
              ms ← or_raise (elements (unwrapped found)) (codes "TypeError")
              ids ← update_each table v ms
              pure (obj (entry (codes "updated_ids") (arr ids) end), count_items ids))
            else pure nothing_done)

  unfoldable pub upsert_each : Text → List Text → Items → Action W Items
  unfolding retry_upsert normalize_result
  upsert_each table keys nil = pure nil
  upsert_each table keys (item v vs) = retry_upsert table v keys >>= λ out.
      upsert_each table keys vs >>= λ outs. pure (item (normalize_result out) outs)

  unfoldable pub upsert_step : Text → List Text → Value → Action W (Value × ℕ)
  unfolding upsert_each
  upsert_step table keys (arr vs) =
      upsert_each table keys vs >>= λ outs. pure (arr outs, count_items outs)
  upsert_step table keys v = retry_upsert table (or_dict v) keys >>= λ out.
      pure (normalize_result out, one_if (normalize_result out))

  -- the loop over the matches of a deletion: their ids
  unfoldable pub delete_each : Text → Items → Action W Items
  unfolding id_of
  delete_each table nil = pure nil
  delete_each table (item m ms) = or_raise (id_of m) (codes "AttributeError") >>= λ id.
      adapter.delete table id >>= λ gone. delete_each table ms >>= λ ids. pure (item id ids)

  unfoldable pub delete_step : Text → Option Fields → Action W (Value × ℕ)
  unfolding delete_each elements get
  delete_step table none = λ w. (raised (codes "DELETE requires 'where'"), w)
  delete_step table (some end) = λ w. (raised (codes "DELETE requires 'where'"), w)
  delete_step table (some (entry k x d)) =
      let where_clause = entry k x d in
      let id = get (codes "id") where_clause in
      if is_true id
      then (do gone ← adapter.delete table id; pure (obj (entry (codes "deleted_id") id end), 1))
      else (do
        matches ← adapter.query table where_clause 1000
        if is_true matches
            then (do
              ms ← or_raise (elements matches) (codes "TypeError")
              ids ← delete_each table ms
              pure (obj (entry (codes "deleted_ids") (arr ids) end), count_items ms))
            else pure nothing_done)

  -- `step.match_on or ["id"]`
  abbrev match_columns : Option (List Text) → List Text
  match_columns none = id_column
  match_columns (some []) = id_column
  match_columns (some (c ∷ cs)) = c ∷ cs

  unfoldable pub operate :
      TableStep → Value → Option Fields → Option (List Text) → Action W (Value × ℕ)
  unfolding create_step update_step upsert_step delete_step filter_known_columns
      normalized_on_conflict
  operate step data_ where_ known =
      let filtered = filter_known_columns data_ known in
      elim step.operation [
        | create ↦ create_step step.table filtered
        | update ↦ update_step step.table filtered where_
        | upsert ↦
            upsert_step step.table (normalized_on_conflict (match_columns step.match_on) known)
              filtered
        | delete ↦ delete_step step.table where_
      ]

  abbrev pub resolve_where : Option Fields → Fields → Resolved (Option Fields)
  resolve_where none outputs = resolved none
  resolve_where (some d) outputs = elim (resolve_fields d outputs) [
    | resolved e ↦ resolved (some e)
    | unresolved e ↦ unresolved e
  ]

  -- `filtering` is the setting `PERSISTENCE_ENABLE_SCHEMA_FILTERING`
  module _ (repr : Value → Text) (filtering : Bool) where
    abbrev pub columns_of : Text → Action W (Option (List Text))
    columns_of table = if filtering then caught none (adapter.get_columns table) else pure none

    -- the `try` of `execute_step`
    unfoldable pub attempt_step : TableStep → Fields → Action W (Value × ℕ)
    unfolding resolve_references caught operate
    attempt_step step outputs = lift (resolve_references step.payload outputs) >>= λ resolved_data.
        lift (resolve_where step.where_clause outputs) >>= λ resolved_where.
        columns_of step.table >>= λ known. operate step resolved_data resolved_where known

    abbrev pub succeeded : TableStep → Value × ℕ → StepResult
    succeeded step out = record {
      step_name = step.step_name;
      table = step.table;
      operation = performed step.operation;
      status = success;
      records_affected = out.1;
      output = out.0;
      error = none;
      skipped_reason = none;
    }

    abbrev pub failed_with : TableStep → Text → StepResult
    failed_with step e = record {
      step_name = step.step_name;
      table = step.table;
      operation = performed step.operation;
      status = failed;
      records_affected = 0;
      output = null;
      error = some e;
      skipped_reason = none;
    }

    abbrev pub skipped_for : TableStep → Text → StepResult
    skipped_for step reason = record {
      step_name = step.step_name;
      table = step.table;
      operation = performed step.operation;
      status = skipped;
      records_affected = 0;
      output = null;
      error = none;
      skipped_reason = some (or_text reason (codes "Condition not met"));
    }

    -- what an attempt ends in: an exception is a failed result
    abbrev pub concluded : TableStep → Reply (Value × ℕ) Text × W → Reply StepResult Text × W
    concluded step r = elim r.0 [
      | returned out ↦ (returned (succeeded step out), r.1)
      | raised e ↦ (returned (failed_with step e), r.1)
      | interrupted ↦ (interrupted, r.1)
    ]

    abbrev pub gate : TableStep → Fields → Option (Bool × Text)
    gate step outputs = elim step.condition [
      | none ↦ some (true, [])
      | some condition ↦ evaluate_condition repr condition outputs
    ]

    -- The condition stands before the `try`: its `TypeError` is raised.
    abbrev pub gated : TableStep → Fields → Option (Bool × Text) → Action W StepResult
    gated step outputs none w = (raised (codes "TypeError"), w)
    gated step outputs (some (false, reason)) w = (returned (skipped_for step reason), w)
    gated step outputs (some (true, reason)) w = concluded step (attempt_step step outputs w)

    unfoldable pub execute_step : TableStep → Fields → Action W StepResult
    unfolding attempt_step evaluate_condition
    execute_step step outputs = gated step outputs (gate step outputs)
