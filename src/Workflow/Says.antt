-- ===== src/Workflow/Says.antt =====
-- What the status of a workflow says of its steps.
use enterprise_ai_sales_orch.Prelude.{
  ◌&&◌, ◌==◌, ◌≡◌, ◌<◌, ◌⊎◌, ◌↔◌, Bool, true, false, arith, refl, [], ◌∷◌, length, keep, All, ltb,
  Bool-cases, inl, inr,
}
use enterprise_ai_sales_orch.Workflow.{
  Text, Arithmetic, Steps, StepData, StepStatus, WorkflowStatus, pending, in_progress, completed,
  failed, partial, count_steps, some_in_progress, is_completed, is_failed, is_in_progress,
  overall_status,
}
use enterprise_ai_sales_orch.Workflow.Counts.{AllSteps, count_steps-AllSteps}

-- some step has the status
abbrev pub Some : StepStatus → Steps → Type 0
Some t [] = ⊥
Some t (e ∷ steps) = (e.1.status ≡ t) ⊎ Some t steps

-- every step has it
abbrev pub Every : StepStatus → Steps → Type 0
Every t steps = All (λ e. e.1.status ≡ t) steps

-- What each status says of the steps of a workflow that has some.
abbrev pub Says : WorkflowStatus → Steps → Type 0
Says partial steps = Some failed steps × Some completed steps
Says failed steps = Some failed steps × ¬ Some completed steps
Says completed steps = Every completed steps
Says in_progress steps = (¬ Some failed steps) × (¬ Every completed steps) × Some in_progress steps
Says pending steps = (¬ Some failed steps) × (¬ Every completed steps) × (¬ Some in_progress steps)

is_failed-eq : (t : StepStatus) → (is_failed t ≡ true) ↔ (t ≡ failed)
is_failed-eq t = ground arith

is_completed-eq : (t : StepStatus) → (is_completed t ≡ true) ↔ (t ≡ completed)
is_completed-eq t = ground arith

is_in_progress-eq : (t : StepStatus) → (is_in_progress t ≡ true) ↔ (t ≡ in_progress)
is_in_progress-eq t = ground arith

abbrev pub has_completed : Text × StepData → Bool
has_completed e = elim e.1.status [ completed ↦ true | _ ↦ false ]

abbrev pub has_failed : Text × StepData → Bool
has_failed e = elim e.1.status [ failed ↦ true | _ ↦ false ]

pub count_completed :
    (steps : Steps) → count_steps is_completed steps ≡ length (keep has_completed steps)
unfolding count_steps
count_completed [] = refl
count_completed (e ∷ steps) = ground (arith, count_completed steps)

pub count_failed : (steps : Steps) → count_steps is_failed steps ≡ length (keep has_failed steps)
unfolding count_steps
count_failed [] = refl
count_failed (e ∷ steps) = ground (arith, count_failed steps)

module _ (p : StepStatus → Bool) (t : StepStatus)
    (same : (s : StepStatus) → (p s ≡ true) ↔ (s ≡ t)) where
  count_steps-Some : (steps : Steps) → (0 < count_steps p steps) ↔ Some t steps
  unfolding count_steps
  count_steps-Some [] = ground arith
  count_steps-Some (e ∷ steps) = ground (arith, same e.1.status, count_steps-Some steps)

  AllSteps-Every : (steps : Steps) → AllSteps p steps ↔ Every t steps
  AllSteps-Every [] = ground arith
  AllSteps-Every (e ∷ steps) = ground (arith, same e.1.status, AllSteps-Every steps)

  count_steps-Every : (steps : Steps) → (count_steps p steps ≡ length steps) ↔ Every t steps
  count_steps-Every steps = ground (arith, count_steps-AllSteps p steps, AllSteps-Every steps)

some_in_progress-Some : (steps : Steps) → (some_in_progress steps ≡ true) ↔ Some in_progress steps
unfolding some_in_progress
some_in_progress-Some [] = ground arith
some_in_progress-Some (e ∷ steps) =
    ground (arith, is_in_progress-eq e.1.status, some_in_progress-Some steps)

pub overall_status-Says : (a : Arithmetic) (steps : Steps) → Says (overall_status a steps) steps
unfolding overall_status
overall_status-Says a steps =
    let wrong = count_steps-Some is_failed failed is_failed-eq steps in
    let done = count_steps-Some is_completed completed is_completed-eq steps in
    let all_done = count_steps-Every is_completed completed is_completed-eq steps in
    let running = some_in_progress-Some steps in
    let w = count_steps is_failed steps in
    let d = count_steps is_completed steps in
    elim (Bool-cases (ltb 0 w && ltb 0 d)) [
      | inl both ↦ rw both (ground (arith, both, wrong, done))
      | inr not_both ↦ rw not_both (elim (Bool-cases (ltb 0 w && (d == 0))) [
        | inl only ↦ rw only (ground (arith, only, wrong, done))
        | inr no_wrong ↦ rw no_wrong (elim (Bool-cases (d == length steps)) [
          | inl whole ↦ rw whole (all_done.0 (ground (arith, whole)))
          | inr part ↦ rw part (elim (Bool-cases (some_in_progress steps)) [
            | inl runs ↦
                rw runs
                  (ground (arith, runs, not_both, no_wrong, part, wrong, done, all_done, running))
            | inr idle ↦
                rw idle
                  (ground (arith, idle, not_both, no_wrong, part, wrong, done, all_done, running))
          ])
        ])
      ])
    ]
