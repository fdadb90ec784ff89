-- ===== src/Workflow/Details.antt =====
-- core/utils/workflow_progress.py: the details of the steps of a workflow, as they are set and read.
use enterprise_ai_sales_orch.Prelude.{
  ◌≡◌, some, Bool, false, arith, refl, List, [], ◌∷◌, Bool-cases, inl, inr, map,
}
use enterprise_ai_sales_orch.Prelude.Text.{Text, text_eq, text_eq-eq}
use enterprise_ai_sales_orch.Workflow.{
  pending, StepStatus, StepData, Steps, count_steps, some_in_progress, is_in_progress, step_of,
  set_step, new_step, new_steps,
}
use enterprise_ai_sales_orch.Workflow.Says.{Every}

abbrev pub names : Steps → List Text
names steps = map (λ e. e.0) steps

-- the names in the order of their first places
unfoldable pub distinct : List Text → List Text
distinct xs = names (new_steps xs [])

pub names-set_step :
    (k : Text) (t s : StepData) (steps : Steps)
    → step_of k steps ≡ some t
    → names (set_step k s steps) ≡ names steps
unfolding step_of set_step
names-set_step k t s [] h = cc
names-set_step k t s ((name, u) ∷ steps) h = elim (Bool-cases (text_eq name k)) [
  | inl same ↦ rw same
  | inr apart ↦ ground (arith, apart, names-set_step k t s steps, h)
]

pub step_of-set_step_self :
    (k : Text) (t s : StepData) (steps : Steps)
    → step_of k steps ≡ some t
    → step_of k (set_step k s steps) ≡ some s
unfolding step_of set_step
step_of-set_step_self k t s [] h = ground (arith, h)
step_of-set_step_self k t s (e ∷ steps) h = ground (arith, h, step_of-set_step_self k t s steps)

pub step_of-set_step_other :
    (k j : Text) (s : StepData) (steps : Steps)
    → text_eq k j ≡ false
    → step_of j (set_step k s steps) ≡ step_of j steps
unfolding step_of set_step
step_of-set_step_other k j s [] h = rw h
step_of-set_step_other k j s ((name, u) ∷ steps) h = elim (Bool-cases (text_eq name k)) [
  | inl same ↦
      let apart : text_eq name j ≡ false = rw (text_eq-eq name k same) h in rw (same, apart)
  | inr other ↦ ground (arith, other, step_of-set_step_other k j s steps h)
]

count_new :
    (p : StepStatus → Bool) (s : StepData) (k : Text) (steps : Steps)
    → p s.status ≡ false
    → count_steps p steps ≡ 0
    → count_steps p (set_step k s steps) ≡ 0
unfolding count_steps set_step
count_new p s k [] none_new h = ground (arith, none_new)
count_new p s k (e ∷ steps) none_new h = ground (arith, none_new, h, count_new p s k steps)

pub count_new_steps :
    (p : StepStatus → Bool) (xs : List Text) (steps : Steps)
    → p pending ≡ false
    → count_steps p steps ≡ 0
    → count_steps p (new_steps xs steps) ≡ 0
unfolding new_steps
count_new_steps p [] steps none_new h = h
count_new_steps p (x ∷ xs) steps none_new h =
    count_new_steps p xs (set_step x new_step steps) none_new
      (count_new p new_step x steps none_new h)

pub count_all_zero :
    (steps : Steps) → count_steps is_in_progress steps ≡ 0 → some_in_progress steps ≡ false
unfolding count_steps some_in_progress
count_all_zero [] h = refl
count_all_zero (e ∷ steps) h = ground (arith, h, count_all_zero steps)

-- new steps are pending
set_step_pending :
    (k : Text) (steps : Steps) → Every pending steps → Every pending (set_step k new_step steps)
unfolding set_step
set_step_pending k [] h = (refl, tt)
set_step_pending k (e ∷ steps) h = elim (Bool-cases (text_eq e.0 k)) [
  | inl same ↦ rw same (refl, h.1)
  | inr apart ↦ rw apart (h.0, set_step_pending k steps h.1)
]

pub new_steps_pending :
    (xs : List Text) (steps : Steps) → Every pending steps → Every pending (new_steps xs steps)
unfolding new_steps
new_steps_pending [] steps h = h
new_steps_pending (x ∷ xs) steps h =
    new_steps_pending xs (set_step x new_step steps) (set_step_pending x steps h)

pub step_of_pending :
    (k : Text) (steps : Steps) (s : StepData)
    → Every pending steps
    → step_of k steps ≡ some s
    → s.status ≡ pending
unfolding step_of
step_of_pending k [] s h e = ground (arith, e)
step_of_pending k (d ∷ steps) s h e = ground (arith, h.0, e, step_of_pending k steps s h.1)
