-- ===== src/Workflow/Counts.antt =====
-- The counts of the steps of a workflow.
use enterprise_ai_sales_orch.Prelude.{
  ℕ, ◌≡◌, ◌≤◌, ◌<◌, ◌↔◌, Bool, true, arith, [], ◌∷◌, length, All,
}
use enterprise_ai_sales_orch.Workflow.{Arithmetic, Steps, StepStatus, count_steps}

-- The documented rounding of binary64 numbers: no steps of some are 0 percent.
pub record PercentLaws (a : Arithmetic) : Type 0 where
  pub nothing : (n : ℕ) → 0 < n → a.percent 0 n ≡ 0

abbrev pub AllSteps : (StepStatus → Bool) → Steps → Type 0
AllSteps p steps = All (λ e. p e.1.status ≡ true) steps

pub count_steps-length :
    (p : StepStatus → Bool) (steps : Steps) → count_steps p steps ≤ length steps
unfolding count_steps
count_steps-length p [] = omega arith
count_steps-length p (e ∷ steps) = ground (arith, count_steps-length p steps)

pub count_steps-AllSteps :
    (p : StepStatus → Bool) (steps : Steps)
    → (count_steps p steps ≡ length steps) ↔ AllSteps p steps
unfolding count_steps
count_steps-AllSteps p [] = ground arith
count_steps-AllSteps p (e ∷ steps) =
    ground (arith, count_steps-length p steps, count_steps-AllSteps p steps)
