-- ===== src/Compound/Uncaught.antt =====
-- The condition of a step that is not compared.
use enterprise_ai_sales_orch.Prelude.{◌≡◌, Bool, List, ◌∷◌}
use enterprise_ai_sales_orch.Prelude.Text.{Text}
use enterprise_ai_sales_orch.Effects.{returned}
use enterprise_ai_sales_orch.Persistence.Value.{Value}
use enterprise_ai_sales_orch.Compound.Data.{TableStep, success, StepResult, Adapter}
use enterprise_ai_sales_orch.Compound.Execution.{execute_step}
use enterprise_ai_sales_orch.Compound.Whole.{Progress, add_success}

module _ {W : Type 0} (adapter : Adapter W) (repr : Value → Text) (filtering : Bool) where
  -- Steps run one after the other and succeed: what is left of them, the progress and the world.
  pub data Reaches : List TableStep → Progress → W → List TableStep → Progress → W → Type 0 where
    here : {steps : List TableStep} {p : Progress} {w : W} → Reaches steps p w steps p w
    next :
        {step : TableStep} {steps rest : List TableStep} {p q : Progress} {w w' v : W}
        (result : StepResult)
        → execute_step adapter repr filtering step p.outputs w ≡ (returned result, w')
        → result.status ≡ success
        → Reaches steps (add_success step.step_name result p) w' rest q v
        → Reaches (step ∷ steps) p w rest q v
