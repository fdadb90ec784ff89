-- ===== src/Compound/Accounts.antt =====
-- What the result of a compound operation says of its steps.
use enterprise_ai_sales_orch.Prelude.{
  ℕ, ◌+◌, ◌≡◌, ◌++◌, Bool, true, false, ◌||◌, Option, none, some, List, [], ◌∷◌, refl, sym, ap, ◌∙◌,
  arith, length, length-append, All,
}
use enterprise_ai_sales_orch.Prelude.Text.{Text, codes, text_eq}
use enterprise_ai_sales_orch.Effects.{Reply, returned, raised, interrupted}
use enterprise_ai_sales_orch.Persistence.Value.{Value, Fields}
use enterprise_ai_sales_orch.Compound.Data.{
  TableStep, CompoundPayload, Status, success, skipped, failed, StepResult, CompoundResult, Adapter,
}
use enterprise_ai_sales_orch.Compound.Execution.{execute_step, gate, gated, concluded, attempt_step}
use enterprise_ai_sales_orch.Compound.Whole.{Progress, finished, broken_off}

abbrev pub step_names : List TableStep → List Text
step_names [] = []
step_names (s ∷ ss) = s.step_name ∷ step_names ss

abbrev pub result_names : List StepResult → List Text
result_names [] = []
result_names (r ∷ rs) = r.step_name ∷ result_names rs

abbrev pub one_success : Status → ℕ
one_success success = 1
one_success skipped = 0
one_success failed = 0

abbrev pub successes : List StepResult → ℕ
successes [] = 0
successes (r ∷ rs) = one_success r.status + successes rs

-- The value of `on_error` is one of those that the loop knows.
abbrev pub IsKnown : TableStep → Type 0
IsKnown step =
    text_eq step.on_error (codes "fail")
      || text_eq step.on_error (codes "skip")
      || text_eq step.on_error (codes "warn")
    ≡ true

pub record Accounts (payload : CompoundPayload) (r : CompoundResult) : Type 0 where
  pub total : r.total_steps ≡ length payload.steps
  pub ordered :
      (rest : List Text) × (step_names payload.steps ≡ result_names r.step_results ++ rest)
  pub completed : r.completed_steps ≡ successes r.step_results
  pub counted :
      r.success ≡ true
      → All IsKnown payload.steps
      → r.completed_steps + r.skipped_steps ≡ length r.step_results
  pub all_run :
      r.success ≡ true
      → payload.continue_on_skip ≡ true
      → length r.step_results ≡ length payload.steps
  pub ended :
      r.success ≡ false
      → (prior : List StepResult) × (last : StepResult) × (r.step_results ≡ prior ++ last ∷ [])
        × (last.status ≡ failed)
        × (r.failed_step ≡ some last.step_name)
        × (r.error ≡ last.error)

result_names-append :
    (rs : List StepResult) (r : StepResult) (rest : List Text)
    → result_names (rs ++ r ∷ []) ++ rest ≡ result_names rs ++ r.step_name ∷ rest
result_names-append [] r rest = refl
result_names-append (q ∷ rs) r rest = ap (λ t. q.step_name ∷ t) (result_names-append rs r rest)

successes-append :
    (rs : List StepResult) (r : StepResult)
    → successes (rs ++ r ∷ []) ≡ successes rs + one_success r.status
successes-append [] r = omega arith
successes-append (q ∷ rs) r = omega (arith, successes-append rs r)

module _ {W : Type 0} (adapter : Adapter W) (repr : Value → Text) (filtering : Bool) where
  concluded-step_name :
      (step : TableStep) (r : Reply (Value × ℕ) Text × W) (result : StepResult)
      → (concluded adapter repr filtering step r).0 ≡ returned result
      → result.step_name ≡ step.step_name
  concluded-step_name step (returned out, w) result h = ground arith
  concluded-step_name step (raised e, w) result h = ground arith
  concluded-step_name step (interrupted, w) result h = ground arith

  gated-step_name :
      (step : TableStep) (outputs : Fields) (o : Option (Bool × Text)) (w : W) (result : StepResult)
      → (gated adapter repr filtering step outputs o w).0 ≡ returned result
      → result.step_name ≡ step.step_name
  gated-step_name step outputs none w result h = ground arith
  gated-step_name step outputs (some (false, reason)) w result h = ground arith
  gated-step_name step outputs (some (true, reason)) w result h =
      concluded-step_name step (attempt_step adapter repr filtering step outputs w) result h

  pub execute_step-step_name :
      (step : TableStep) (outputs : Fields) (w : W) (result : StepResult)
      → (execute_step adapter repr filtering step outputs w).0 ≡ returned result
      → result.step_name ≡ step.step_name
  unfolding execute_step
  execute_step-step_name step outputs w result h =
      gated-step_name step outputs (gate adapter repr filtering step outputs) w result h

module _ (payload : CompoundPayload) where
  -- the steps that are left, and what is known of the others
  pub record Inv (steps : List TableStep) (p : Progress) : Type 0 where
    pub order : step_names payload.steps ≡ result_names p.step_results ++ step_names steps
    pub size : length payload.steps ≡ length p.step_results + length steps
    pub done : p.completed ≡ successes p.step_results
    pub known : All IsKnown payload.steps → All IsKnown steps
    pub counts : All IsKnown payload.steps → p.completed + p.skips ≡ length p.step_results

  pub Inv-step :
      (step : TableStep) (steps : List TableStep) (p p' : Progress) (result : StepResult)
      → Inv (step ∷ steps) p
      → result.step_name ≡ step.step_name
      → p'.step_results ≡ p.step_results ++ result ∷ []
      → p'.completed ≡ p.completed + one_success result.status
      → (IsKnown step → p'.completed + p'.skips ≡ p.completed + p.skips + 1)
      → Inv steps p'
  Inv-step step steps p p' result inv named is more one =
      let size_lem = length-append p.step_results (result ∷ []) in
      record {
        order =
            inv.order
            ∙ rw (is, sym named)
                (sym (result_names-append p.step_results result (step_names steps)));
        size = rw is (omega (arith, inv.size, size_lem));
        done = rw is (omega (arith, inv.done, more, successes-append p.step_results result));
        known = λ h. (inv.known h).1;
        counts = λ h. rw is (omega (arith, inv.counts h, size_lem, one (inv.known h).0));
      }

  pub finished-Accounts :
      (steps : List TableStep) (p : Progress)
      → Inv steps p
      → (payload.continue_on_skip ≡ true → steps ≡ [])
      → Accounts payload (finished payload.steps p)
  finished-Accounts steps p inv through = record {
    total = refl;
    ordered = (step_names steps, inv.order);
    completed = inv.done;
    counted = λ yes h. inv.counts h;
    all_run = λ yes h. let none_left = ap length (through h) in omega (arith, inv.size);
    ended = λ no. absurd cc;
  }

  pub broken_off-Accounts :
      (step : TableStep) (steps : List TableStep) (p : Progress) (result : StepResult)
      (undone : List StepResult)
      → Inv (step ∷ steps) p
      → result.step_name ≡ step.step_name
      → result.status ≡ failed
      → Accounts payload
          (broken_off payload.steps payload.rollback_on_failure step.step_name result p undone)
  broken_off-Accounts step steps p result undone inv named is = record {
    total = refl;
    ordered = (
      step_names steps,
      inv.order
          ∙ rw (sym named) (sym (result_names-append p.step_results result (step_names steps))),
    );
    completed =
        let no_success : one_success result.status ≡ 0 = rw is in
        omega (arith, inv.done, successes-append p.step_results result);
    counted = λ no. absurd cc;
    all_run = λ no. absurd cc;
    ended = λ no. (p.step_results, result, refl, is, ap some (sym named), refl);
  }
