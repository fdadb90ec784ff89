-- ===== src/Compound/Undoing.antt =====
-- How a compound operation fails, and what it deletes then.
use enterprise_ai_sales_orch.Prelude.{
  ◌≡◌, ◌++◌, Bool, true, false, List, [], ◌∷◌, refl, sym, ap, ◌∙◌, reverse, if◌then◌else◌,
  Bool-cases, inl, inr,
}
use mathlib.Core.Path.{subst}
use enterprise_ai_sales_orch.Prelude.Text.{Text, codes, text_eq}
use enterprise_ai_sales_orch.Effects.{
  Reply, returned, Action, pure, bind_inv, bind_returned, bind_at, chosen, other_chosen,
}
use enterprise_ai_sales_orch.Persistence.Value.{Value}
use enterprise_ai_sales_orch.Compound.Data.{
  TableStep, CompoundPayload, Status, success, skipped, failed, StepResult, CompoundResult, Adapter,
}
use enterprise_ai_sales_orch.Compound.Execution.{execute_step}
use enterprise_ai_sales_orch.Compound.Whole.{
  Progress, no_progress, add_success, add_skip, pass_over, finished, broken_off, rollback_all,
  break_off, go_on, run_steps, execute_compound,
}
use enterprise_ai_sales_orch.Compound.Rollback.{
  Deletion, all_to_undo, DeletesLogged, Deletes, rollback_all-Deletes,
}

returned_once : {A : Type 0} {a b : A} (x : Reply A Text) → x ≡ returned a → x ≡ returned b → a ≡ b
returned_once x h k = cc

module _ {W : Type 0} (adapter : Adapter W) (repr : Value → Text) (filtering : Bool)
    (payload : CompoundPayload) where
  -- An operation that fails ends with a break, at some step.
  record BrokenOff (out : Reply CompoundResult Text × W) : Type 0 where
    step : TableStep
    result : StepResult
    progress : Progress
    world : W
    same : out ≡ break_off adapter repr filtering payload step result progress world

  along :
      {out out' : Reply CompoundResult Text × W} {r : CompoundResult}
      → out ≡ out'
      → (out'.0 ≡ returned r → BrokenOff out')
      → out.0 ≡ returned r
      → BrokenOff out
  along e next h = subst BrokenOff (sym e) (next (ap (λ x. x.0) (sym e) ∙ h))

  finished-success :
      (p : Progress) (w : W) (r : CompoundResult)
      → r.success ≡ false
      → (pure (finished payload.steps p) w).0 ≡ returned r
      → BrokenOff (pure (finished payload.steps p) w)
  finished-success p w r no_success h = let same : finished payload.steps p ≡ r = cc in absurd cc

  go_on-BrokenOff :
      (step : TableStep) (result : StepResult) (p : Progress)
      (rest : Progress → Action W CompoundResult) (s : Status) (w : W) (r : CompoundResult)
      → ((q : Progress) → (rest q w).0 ≡ returned r → BrokenOff (rest q w))
      → r.success ≡ false
      → (go_on adapter repr filtering payload step result p rest s w).0 ≡ returned r
      → BrokenOff (go_on adapter repr filtering payload step result p rest s w)
  go_on-BrokenOff step result p rest success w r later no_success h =
      later (add_success step.step_name result p) h
  go_on-BrokenOff step result p rest skipped w r later no_success h =
      let next = add_skip result p in
      let stop = pure (finished payload.steps next) in
      elim (Bool-cases payload.continue_on_skip) [
        | inl on ↦ along (chosen (rest next) stop w on) (later next) h
        | inr off ↦
            along (other_chosen (rest next) stop w off) (finished-success next w r no_success) h
      ]
  go_on-BrokenOff step result p rest failed w r later no_success h =
      let next = pass_over step result p in
      let stop = break_off adapter repr filtering payload step result p in
      elim (Bool-cases (text_eq step.on_error (codes "fail"))) [
        | inl fails ↦
            subst BrokenOff (sym (chosen stop (rest next) w fails))
              (record { step = step; result = result; progress = p; world = w; same = refl })
        | inr other ↦ along (other_chosen stop (rest next) w other) (later next) h
      ]

  run_steps-BrokenOff :
      (steps : List TableStep) (p : Progress) (w : W) (r : CompoundResult)
      → r.success ≡ false
      → (run_steps adapter repr filtering payload steps p w).0 ≡ returned r
      → BrokenOff (run_steps adapter repr filtering payload steps p w)
  unfolding run_steps
  run_steps-BrokenOff [] p w r no_success h = finished-success p w r no_success h
  run_steps-BrokenOff (step ∷ steps) p w r no_success h =
      let run : TableStep → Progress → Action W CompoundResult =
        λ s q. run_steps adapter repr filtering payload steps q in
      let after : StepResult → Action W CompoundResult = λ result.
        go_on adapter repr filtering payload step result p
          (run_steps adapter repr filtering payload steps) result.status in
      let (result, ran, rest) =
        bind_inv (execute_step adapter repr filtering step p.outputs) after w r h in
      let w' = (execute_step adapter repr filtering step p.outputs w).1 in
      along (bind_returned (execute_step adapter repr filtering step p.outputs) after w result ran)
        (go_on-BrokenOff step result p (run_steps adapter repr filtering payload steps)
          result.status w' r (λ q. run_steps-BrokenOff steps q w' r no_success) no_success)
        h

  break_off-undone :
      (log : W → List Deletion) (step : TableStep) (result : StepResult) (p : Progress) (w : W)
      → DeletesLogged adapter log
      → payload.rollback_on_failure ≡ true
      → (undone : List StepResult) × ((break_off adapter repr filtering payload step result p w).0
          ≡ returned
              (broken_off payload.steps payload.rollback_on_failure step.step_name result p undone))
        × (log (break_off adapter repr filtering payload step result p w).1
            ≡ log w ++ all_to_undo (reverse p.step_results))
  unfolding break_off Deletes
  break_off-undone log step result p w laws on =
      let undo_all = rollback_all adapter (reverse p.step_results) in
      let nothing : Action W (List StepResult) = pure [] in
      let finish : List StepResult → Action W CompoundResult = λ undone.
        pure
          (broken_off payload.steps payload.rollback_on_failure step.step_name result p undone) in
      let (undone, is, here) = rollback_all-Deletes adapter log laws (reverse p.step_results) w in
      let w' = (undo_all w).1 in
      let run = chosen undo_all nothing w on ∙ ap (λ x. (x, w')) is in
      let all =
        bind_at (if payload.rollback_on_failure then undo_all else nothing) w finish undone w'
          run in
      (undone, ap (λ x. x.0) all, ap (λ x. log x.1) all ∙ here)

-- If deletions succeed: where a compound operation that is to roll back fails, its last deletions are those
-- of all the rows with an id in the results of its successful creations and upserts, the last of these first.
pub execute_compound-undone :
    {W : Type 0} (adapter : Adapter W) (repr : Value → Text) (filtering : Bool)
    (payload : CompoundPayload) (log : W → List Deletion) (w : W) (r : CompoundResult)
    → DeletesLogged adapter log
    → payload.rollback_on_failure ≡ true
    → (execute_compound adapter repr filtering payload w).0 ≡ returned r
    → r.success ≡ false
    → (prior : List StepResult) × (last : StepResult) × (before : List Deletion) × (r.step_results
        ≡ prior ++ last ∷ [])
      × (log (execute_compound adapter repr filtering payload w).1
          ≡ before ++ all_to_undo (reverse prior))
unfolding execute_compound break_off
execute_compound-undone adapter repr filtering payload log w r laws on h no_success =
    let it =
      run_steps-BrokenOff adapter repr filtering payload payload.steps no_progress w r no_success
        h in
    let (undone, is, here) =
      break_off-undone adapter repr filtering payload log it.step it.result it.progress it.world
        laws on in
    let same : broken_off payload.steps payload.rollback_on_failure it.step.step_name it.result
          it.progress undone
        ≡ r =
      returned_once (execute_compound adapter repr filtering payload w).0
        (ap (λ x. x.0) it.same ∙ is) h in
    (
      it.progress.step_results,
      it.result,
      log it.world,
      ap (λ x. x.step_results) (sym same),
      ap (λ x. log x.1) it.same ∙ here,
    )
