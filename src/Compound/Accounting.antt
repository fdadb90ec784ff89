-- ===== src/Compound/Accounting.antt =====
-- What the result of a compound operation says of its steps.
use mathlib.Core.Path.{subst}
use enterprise_ai_sales_orch.Prelude.{
  ◌≡◌, Bool, false, List, [], ◌∷◌, refl, sym, ap, ◌∙◌, arith, reverse, if◌then◌else◌, Bool-cases,
  inl, inr,
}
use enterprise_ai_sales_orch.Prelude.Text.{Text, codes, text_eq}
use enterprise_ai_sales_orch.Effects.{returned, Action, pure, bind_inv, chosen, other_chosen}
use enterprise_ai_sales_orch.Persistence.Value.{Value}
use enterprise_ai_sales_orch.Compound.Data.{
  TableStep, CompoundPayload, Status, success, skipped, failed, StepResult, CompoundResult, Adapter,
}
use enterprise_ai_sales_orch.Compound.Execution.{execute_step}
use enterprise_ai_sales_orch.Compound.Whole.{
  go_on, Progress, no_progress, add_success, add_skip, add_result, finished, broken_off, break_off,
  pass_over, run_steps, execute_compound, rollback_all,
}
use enterprise_ai_sales_orch.Compound.Accounts.{
  one_success, Accounts, execute_step-step_name, Inv, Inv-step, finished-Accounts,
  broken_off-Accounts,
}

module _ {W : Type 0} (adapter : Adapter W) (repr : Value → Text) (filtering : Bool) where
  module _ (payload : CompoundPayload) where
    Continues : List TableStep → Type 0
    Continues steps =
        (p : Progress) (w : W) (r : CompoundResult)
        → Inv payload steps p
        → (run_steps adapter repr filtering payload steps p w).0 ≡ returned r
        → Accounts payload r

    module _ (step : TableStep) (steps : List TableStep) (p : Progress) (w : W) (r : CompoundResult)
        (result : StepResult) (inv : Inv payload (step ∷ steps) p)
        (named : result.step_name ≡ step.step_name) (continues : Continues steps) where
      success-Inv :
          result.status ≡ success → Inv payload steps (add_success step.step_name result p)
      unfolding add_success
      success-Inv is =
          Inv-step payload step steps p (add_success step.step_name result p) result inv named refl
            (rw is refl) (λ h. omega arith)

      skip-Inv : (one_success result.status ≡ 0) → Inv payload steps (add_skip result p)
      unfolding add_skip
      skip-Inv is =
          Inv-step payload step steps p (add_skip result p) result inv named refl
            (omega (arith, is)) (λ h. omega arith)

      pass-Inv :
          result.status ≡ failed
          → text_eq step.on_error (codes "fail") ≡ false
          → Inv payload steps (pass_over step result p)
      unfolding add_skip add_result
      pass-Inv is other =
          Inv-step payload step steps p (pass_over step result p) result inv named (ground arith)
            (ground (arith, is)) (λ h. ground (arith, h, other))

      stopped :
          result.status ≡ failed
          → (break_off adapter repr filtering payload step result p w).0 ≡ returned r
          → Accounts payload r
      unfolding break_off
      stopped is h =
          let undo : Action W (List StepResult) =
            if payload.rollback_on_failure
            then rollback_all adapter (reverse p.step_results)
            else pure [] in
          let finish : List StepResult → Action W CompoundResult = λ undone.
            pure (
              broken_off payload.steps payload.rollback_on_failure step.step_name result p
                undone) in
          let (undone, rolled, same) = bind_inv undo finish w r h in
          let it : broken_off payload.steps payload.rollback_on_failure step.step_name result p
                undone
              ≡ r =
            cc in
          subst (Accounts payload) it
            (broken_off-Accounts payload step steps p result undone inv named is)

      go_on-Accounts :
          (s : Status)
          → result.status ≡ s
          → (go_on adapter repr filtering payload step result p
              (run_steps adapter repr filtering payload steps)
              s
              w).0
            ≡ returned r
          → Accounts payload r
      unfolding Continues
      go_on-Accounts success is h =
          continues (add_success step.step_name result p) w r (success-Inv is) h
      go_on-Accounts skipped is h =
          let next = add_skip result p in
          let inv' = skip-Inv (rw is refl) in
          let more = run_steps adapter repr filtering payload steps next in
          let stop = pure (finished payload.steps next) in
          elim (Bool-cases payload.continue_on_skip) [
            | inl on ↦ continues next w r inv' (sym (ap (λ x. x.0) (chosen more stop w on)) ∙ h)
            | inr off ↦
                let h' = sym (ap (λ x. x.0) (other_chosen more stop w off)) ∙ h in
                let it : finished payload.steps next ≡ r = cc in
                subst (Accounts payload) it
                  (finished-Accounts payload steps next inv' (λ on. absurd cc))
          ]
      go_on-Accounts failed is h =
          let next = pass_over step result p in
          let more = run_steps adapter repr filtering payload steps next in
          let stop = break_off adapter repr filtering payload step result p in
          elim (Bool-cases (text_eq step.on_error (codes "fail"))) [
            | inl fails ↦ stopped is (sym (ap (λ x. x.0) (chosen stop more w fails)) ∙ h)
            | inr other ↦
                continues next w r (pass-Inv is other)
                  (sym (ap (λ x. x.0) (other_chosen stop more w other)) ∙ h)
          ]

    run_steps-Accounts : (steps : List TableStep) → Continues steps
    unfolding Continues run_steps
    run_steps-Accounts [] p w r inv h =
        let it : finished payload.steps p ≡ r = cc in
        subst (Accounts payload) it (finished-Accounts payload [] p inv (λ on. refl))
    run_steps-Accounts (step ∷ steps) p w r inv h =
        let after = λ (result : StepResult).
          go_on adapter repr filtering payload step result p
            (run_steps adapter repr filtering payload steps) result.status in
        let (result, ran, rest) =
          bind_inv (execute_step adapter repr filtering step p.outputs) after w r h in
        let named = execute_step-step_name adapter repr filtering step p.outputs w result ran in
        go_on-Accounts step steps p (execute_step adapter repr filtering step p.outputs w).1 r
          result inv named (run_steps-Accounts steps) result.status refl rest

  -- Whatever the adapter does: if a compound operation returns, its result counts all steps; its results
  -- are those of the first steps, in their order; the completed ones are those that succeeded. If it
  -- succeeds, the completed and the skipped ones are all results where each `on_error` is a known one, and where
  -- skips are passed over every step has a result. If it fails, the last result is the failed one
  -- that it names, with its error.
  pub execute_compound-Accounts :
      (payload : CompoundPayload) (w : W) (r : CompoundResult)
      → (execute_compound adapter repr filtering payload w).0 ≡ returned r
      → Accounts payload r
  unfolding execute_compound Continues
  execute_compound-Accounts payload w r h =
      run_steps-Accounts payload payload.steps no_progress w r
        (record {
          order = refl;
          size = omega arith;
          done = refl;
          known = λ k. k;
          counts = λ k. refl;
        })
        h
