-- ===== src/Workflow/Tests.antt =====
-- A workflow of three steps.
use native.Mathlib.Nat.{zero-div}
use enterprise_ai_sales_orch.Prelude.{
  ◌≡◌, ◌*◌, ◌/◌, refl, arith, ℕ, true, false, none, some, List, [], ◌∷◌,
}
use enterprise_ai_sales_orch.Prelude.Text.{Text, codes}
use enterprise_ai_sales_orch.Prelude.Int.{sub_ℕ}
use enterprise_ai_sales_orch.Workflow.{
  Progress, Arithmetic, Hash, Steps, StepData, StepStatus, Update, pending, in_progress, completed,
  failed, started, Store, put,
}
use enterprise_ai_sales_orch.Workflow.{Progress, new_steps}
use enterprise_ai_sales_orch.Workflow.Counts.{PercentLaws}
use enterprise_ai_sales_orch.Workflow.Runs.{IsConsistent, latest, update_all, update_all-started}
use enterprise_ai_sales_orch.Workflow.Details.{distinct}
use enterprise_ai_sales_orch.Workflow.Active.{last_part, list_active_workflows}

-- the percentages without the error of the floats, by the number of steps
abbrev exact : Arithmetic
exact = record {
  percent = λ m n. m * 100 / n;
  milliseconds = λ s t. sub_ℕ (t / 1000) (s / 1000);
  loads = λ t. none;
}

exact_laws : PercentLaws exact
exact_laws = record { nothing = λ n h. zero-div n }

abbrev rag : Text
rag = codes "rag"

abbrev copy : Text
copy = codes "copy"

abbrev update : Text → StepStatus → ℕ → Update
update name status now = record {
  step_name = name;
  status = status;
  result_count = none;
  error = none;
  now = now;
}

update_all-started_example :
    (h : Hash) × (update_all exact
        (update rag in_progress 1000
          ∷ update rag completed 5000
          ∷ update (codes "other") failed 6000
          ∷ [])
        (started
          (codes "wf-123")
          (rag ∷ copy ∷ rag ∷ [])
          ((codes "campaign_id", codes "camp-456") ∷ [])
          0)
      ≡ some h)
    × IsConsistent exact
        (distinct (rag ∷ copy ∷ rag ∷ []))
        (λ k. latest k pending (
          update rag in_progress 1000
          ∷ update rag completed 5000
          ∷ update (codes "other") failed 6000
          ∷ []))
        h
unfolding distinct new_steps
update_all-started_example =
    update_all-started exact exact_laws (codes "wf-123") (rag ∷ copy ∷ rag ∷ [])
      ((codes "campaign_id", codes "camp-456") ∷ []) 0
      (update rag in_progress 1000
        ∷ update rag completed 5000
        ∷ update (codes "other") failed 6000
        ∷ [])
      (omega arith) (refl, tt)

abbrev step_with : StepStatus → StepData
step_with status = record {
  status = status;
  started_at = none;
  completed_at = none;
  duration_ms = none;
  result_count = none;
  error = none;
}

abbrev both : StepStatus → StepStatus → Steps
both s t = (rag, step_with s) ∷ (copy, step_with t) ∷ []

abbrev one_workflow : Store
one_workflow = put (codes "wf-123") (started (codes "wf-123") (rag ∷ copy ∷ []) [] 0) (λ k. none)

list_active_workflows_example :
    list_active_workflows exact true false one_workflow 100 (codes "workflow:state:wf-123" ∷ [])
    ≡ some []
unfolding list_active_workflows last_part
list_active_workflows_example = refl

abbrev no_workflows : List Progress
no_workflows = []
