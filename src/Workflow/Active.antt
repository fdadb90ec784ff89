-- ===== src/Workflow/Active.antt =====
-- core/utils/workflow_progress.py: the reports of the tracker on its workflows.
use enterprise_ai_sales_orch.Workflow.{pending, in_progress, completed, failed, partial}
use enterprise_ai_sales_orch.Prelude.{
  inr, inl, ℕ, ◌≡◌, ◌⊎◌, ◌==◌, leb, Bool, true, false, Bool-cases, not, Option, none, some, List,
  [], ◌∷◌, ◌++◌, length, if◌then◌else◌, arith, refl,
}
use enterprise_ai_sales_orch.Prelude.Text.{Text, codes, listed}
use enterprise_ai_sales_orch.Workflow.{
  read_int, read_steps, Arithmetic, Store, Hash, Field, text, number, overall, time, details,
  Progress, progress_of, seen,
}

-- `s.split(":")[-1]`, of what stands before the first colon and what follows it
unfoldable pub last_part : Text → Text → Text
last_part part [] = part
last_part part (c ∷ s) = if c == 58 then last_part [] s else last_part (part ++ c ∷ []) s

-- a status in `(WorkflowStatus.PENDING, WorkflowStatus.IN_PROGRESS)`
unfoldable pub is_active : Option Field → Bool
is_active none = false
is_active (some (text t)) = listed t (codes "pending" ∷ codes "in_progress" ∷ [])
is_active (some (number n)) = false
is_active (some (overall pending)) = true
is_active (some (overall in_progress)) = true
is_active (some (overall completed)) = false
is_active (some (overall failed)) = false
is_active (some (overall partial)) = false
is_active (some (time t)) = false
is_active (some (details steps)) = false

unseen :
    (a : Arithmetic) (decodes : Bool) (h : Hash) (p : Progress)
    → decodes ≡ false
    → progress_of a (seen decodes h) ≡ some p
    → p.status ≡ none
unfolding progress_of seen read_steps read_int
unseen a true h p raw e = cc
unseen a false h p raw e = cc

module _ (a : Arithmetic) (enabled decodes : Bool) (store : Store) where
  -- `none` is an exception, and `some none` is `None`
  unfoldable pub get_progress : Text → Option (Option Progress)
  unfolding progress_of seen
  get_progress id = if not enabled then some none else elim (store id) [
    | none ↦ some none
    | some h ↦ elim (progress_of a (seen decodes h)) [ none ↦ none | some p ↦ some (some p) ]
  ]

  -- the workflows found so far, and the one of a key
  unfoldable pub with_active : Option Progress → List Progress → List Progress
  unfolding is_active
  with_active none found = found
  with_active (some p) found = if is_active p.status then found ++ p ∷ [] else found

  -- The loop over the keys that the scan gives. A key is decoded, which only bytes can be.
  unfoldable pub active_from : ℕ → List Text → List Progress → Option (List Progress)
  unfolding get_progress with_active last_part
  active_from limit [] found = some found
  active_from limit (key ∷ keys) found =
      if decodes then none else elim (get_progress (last_part [] key)) [
        | none ↦ none
        | some p ↦
            let rest = active_from limit keys (with_active p found) in
            if leb limit (length (with_active p found)) then some (with_active p found) else rest
      ]

  unfoldable pub list_active_workflows : ℕ → List Text → Option (List Progress)
  unfolding active_from
  list_active_workflows limit keys = if not enabled then some [] else active_from limit keys []

  get_progress-inactive :
      (id : Text) (p : Option Progress)
      → decodes ≡ false
      → get_progress id ≡ some p
      → with_active p [] ≡ []
  unfolding get_progress with_active
  get_progress-inactive id none raw h = refl
  get_progress-inactive id (some p) raw h = by_hash (store id) refl
    where
      by_progress :
          (h' : Hash) (o : Option Progress)
          → store id ≡ some h'
          → progress_of a (seen decodes h') ≡ o
          → with_active (some p) [] ≡ []
      by_progress h' none e f = ground (arith, h, e, f)
      by_progress h' (some p') e f = ground (arith, h, e, f, unseen a decodes h' p' raw f)

      by_hash : (o : Option Hash) → store id ≡ o → with_active (some p) [] ≡ []
      by_hash none e = ground (arith, h, e)
      by_hash (some h') e = by_progress h' (progress_of a (seen decodes h')) e refl

  active_from_empty :
      (limit : ℕ) (keys : List Text) (ws : List Progress)
      → active_from limit keys [] ≡ some ws
      → ws ≡ []
  unfolding active_from
  active_from_empty limit [] ws h = cc
  active_from_empty limit (key ∷ keys) ws h =
      by_progress (active_from_empty limit keys ws) (Bool-cases decodes)
        (get_progress (last_part [] key)) refl
    where
      by_progress :
          (active_from limit keys [] ≡ some ws → ws ≡ [])
          → (decodes ≡ true) ⊎ (decodes ≡ false)
          → (o : Option (Option Progress)) → get_progress (last_part [] key) ≡ o
          → ws ≡ []
      by_progress later (inl decoding) o e = ground (arith, h, decoding)
      by_progress later (inr raw) none e = ground (arith, h, raw, e)
      by_progress later (inr raw) (some p) e =
          ground (arith, h, raw, e, later, get_progress-inactive (last_part [] key) p raw e)

  -- Whatever workflows there are, and whichever client is used: the list of the active workflows is
  -- empty where it is returned at all.
  list_active_workflows_empty :
      (limit : ℕ) (keys : List Text) (ws : List Progress)
      → list_active_workflows limit keys ≡ some ws
      → ws ≡ []
  unfolding list_active_workflows
  list_active_workflows_empty limit keys ws h = elim (Bool-cases enabled) [
    | inl on ↦ active_from_empty limit keys ws (ground (arith, on, h))
    | inr off ↦ ground (arith, off, h)
  ]
