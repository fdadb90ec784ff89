-- ===== src/Compound/Rollback.antt =====
-- What the rollback of results deletes.
use enterprise_ai_sales_orch.Prelude.{
  append_assoc, append_nil, ◌≡◌, ◌++◌, Bool, true, false, none, List, [], ◌∷◌, refl, sym, ap, ◌∙◌,
  if◌then◌else◌, Bool-cases, inl, inr,
}
use mathlib.Core.Path.{subst}
use enterprise_ai_sales_orch.Prelude.Text.{Text, codes}
use enterprise_ai_sales_orch.Effects.{returned, Action, ◌>>=◌, pure, bind_returned}
use enterprise_ai_sales_orch.Persistence.Value.{
  Value, null, arr, obj, Items, nil, item, get, is_true,
}
use enterprise_ai_sales_orch.Compound.Data.{Status, success, skipped, failed, StepResult, Adapter}
use enterprise_ai_sales_orch.Compound.Whole.{
  undo, is_insertion, rollback_result, rolled_back, not_rolled_back, delete_item, delete_items,
  delete_output, rollback_step, rollback_all,
}

abbrev pub Deletion : Type 0
Deletion = Text × Value

-- The rows of an output that have an id.
abbrev pub row_of : Text → Value → List Deletion
row_of table (obj d) = if is_true (get (codes "id") d) then (table, get (codes "id") d) ∷ [] else []
row_of table v = []

abbrev pub rows_of : Text → Items → List Deletion
rows_of table nil = []
rows_of table (item v vs) = row_of table v ++ rows_of table vs

abbrev pub rows_in : Text → Value → List Deletion
rows_in table (arr vs) = rows_of table vs
rows_in table v = row_of table v

abbrev undone : StepResult → Status → Bool → List Deletion
undone r success true = rows_in r.table r.output
undone r success false = []
undone r skipped inserted = []
undone r failed inserted = []

-- What a rollback of a result is to delete: the rows of a successful creation or upsert.
abbrev pub to_undo : StepResult → List Deletion
to_undo r = undone r r.status (is_insertion r.operation)

abbrev pub all_to_undo : List StepResult → List Deletion
all_to_undo [] = []
all_to_undo (r ∷ rs) = to_undo r ++ all_to_undo rs

-- Deletions succeed, and the world keeps a list of them.
pub record DeletesLogged {W : Type 0} (adapter : Adapter W) (log : W → List Deletion) : Type 0 where
  pub logged :
      (table : Text) (v : Value) (w : W)
      → (out : Value) × ((adapter.delete table v w).0 ≡ returned out)
        × (log (adapter.delete table v w).1 ≡ log w ++ (table, v) ∷ [])

module _ {W : Type 0} (adapter : Adapter W) (log : W → List Deletion)
    (laws : DeletesLogged adapter log) where
  -- An action returns, and its deletions are these.
  unfoldable pub Deletes : {A : Type 0} → Action W A → List Deletion → Type 0
  Deletes {A} m ds = (w : W) → (a : A) × ((m w).0 ≡ returned a) × (log (m w).1 ≡ log w ++ ds)

  pure-Deletes : {A : Type 0} (a : A) → Deletes (pure a) []
  unfolding Deletes
  pure-Deletes a w = (a, refl, sym (append_nil (log w)))

  bind-Deletes :
      {A B : Type 0} (m : Action W A) (f : A → Action W B) (ds es : List Deletion)
      → Deletes m ds
      → ((a : A) → Deletes (f a) es)
      → Deletes (m >>= f) (ds ++ es)
  unfolding Deletes
  bind-Deletes m f ds es first second w =
      let (a, is, here) = first w in
      let (b, is', there) = second a (m w).1 in
      let both = bind_returned m f w a is in
      (
        b,
        ap (λ x. x.0) both ∙ is',
        ap (λ x. log x.1) both ∙ there ∙ ap (λ s. s ++ es) here ∙ append_assoc (log w) ds es,
      )

  delete_item-Deletes :
      (table : Text) (v : Value) → Deletes (delete_item adapter table v) (row_of table v)
  unfolding Deletes delete_item
  delete_item-Deletes table (obj d) w = elim (Bool-cases (is_true (get (codes "id") d))) [
    | inl has_id ↦ rw has_id (laws.logged table (get (codes "id") d) w)
    | inr without ↦ rw without (null, refl, sym (append_nil (log w)))
  ]
  delete_item-Deletes table v w = (null, refl, sym (append_nil (log w)))

  delete_items-Deletes :
      (table : Text) (vs : Items) → Deletes (delete_items adapter table vs) (rows_of table vs)
  unfolding delete_items
  delete_items-Deletes table nil = pure-Deletes null
  delete_items-Deletes table (item v vs) =
      bind-Deletes (delete_item adapter table v) (λ gone. delete_items adapter table vs)
        (row_of table v) (rows_of table vs) (delete_item-Deletes table v)
        (λ gone. delete_items-Deletes table vs)

  delete_output-Deletes :
      (table : Text) (v : Value) → Deletes (delete_output adapter table v) (rows_in table v)
  unfolding delete_output
  delete_output-Deletes table (arr vs) = delete_items-Deletes table vs
  delete_output-Deletes table v = delete_item-Deletes table v

  rolled_back-Deletes :
      (r : StepResult) (w : W)
      → (a : StepResult) × ((rolled_back adapter r (delete_output adapter r.table r.output w)).0
          ≡ returned a)
        × (log (rolled_back adapter r (delete_output adapter r.table r.output w)).1
            ≡ log w ++ rows_in r.table r.output)
  unfolding Deletes
  rolled_back-Deletes r w =
      let (v, is, here) = delete_output-Deletes r.table r.output w in
      rw is (rollback_result r success r.records_affected none none, refl, here)

  undo-Deletes :
      (r : StepResult) (s : Status) (b : Bool) → Deletes (undo adapter r s b) (undone r s b)
  unfolding Deletes
  undo-Deletes r success true w = rolled_back-Deletes r w
  undo-Deletes r success false w = (not_rolled_back adapter r, refl, sym (append_nil (log w)))
  undo-Deletes r skipped b w = (r, refl, sym (append_nil (log w)))
  undo-Deletes r failed b w = (r, refl, sym (append_nil (log w)))

  rollback_step-Deletes : (r : StepResult) → Deletes (rollback_step adapter r) (to_undo r)
  unfolding rollback_step
  rollback_step-Deletes r = undo-Deletes r r.status (is_insertion r.operation)

  then_pure-Deletes :
      {A B : Type 0} (m : Action W A) (f : A → B) (ds : List Deletion)
      → Deletes m ds
      → Deletes (m >>= λ a. pure (f a)) ds
  then_pure-Deletes m f ds h =
      subst (Deletes (m >>= λ a. pure (f a))) (append_nil ds)
        (bind-Deletes m (λ a. pure (f a)) ds [] h (λ a. pure-Deletes (f a)))

  pub rollback_all-Deletes :
      (rs : List StepResult) → Deletes (rollback_all adapter rs) (all_to_undo rs)
  unfolding rollback_all
  rollback_all-Deletes [] = pure-Deletes []
  rollback_all-Deletes (r ∷ rs) =
      bind-Deletes (rollback_step adapter r)
        (λ done. rollback_all adapter rs >>= λ more. pure (done ∷ more)) (to_undo r)
        (all_to_undo rs) (rollback_step-Deletes r)
        (λ done.
          then_pure-Deletes (rollback_all adapter rs) (λ more. done ∷ more) (all_to_undo rs)
            (rollback_all-Deletes rs))
