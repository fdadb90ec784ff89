-- ===== src/Compound/Shape.antt =====
-- What resolving the references of a value keeps of it.
use enterprise_ai_sales_orch.Prelude.{◌≡◌, false, refl, arith}
use enterprise_ai_sales_orch.Prelude.Text.{Text, starts_with}
use enterprise_ai_sales_orch.Persistence.Value.{
  Value, null, flag, number, text, arr, obj, Items, nil, item, Fields, end, entry,
}
use enterprise_ai_sales_orch.Compound.References.{
  Resolved, resolved, unresolved, then_resolve, ref_prefix, resolve_value, resolve_references,
  resolve_items, resolve_fields,
}

-- A value but for the texts that start with `$ref:`, in whose place any value may stand.
unfoldable mutual
  pub SameShape : Value → Value → Type 0
  SameShape null w = w ≡ null
  SameShape (flag b) w = w ≡ flag b
  SameShape (number n) w = w ≡ number n
  SameShape (text t) w = starts_with ref_prefix t ≡ false → w ≡ text t
  SameShape (arr vs) w = (ws : Items) × (w ≡ arr ws) × SameItems vs ws
  SameShape (obj d) w = (e : Fields) × (w ≡ obj e) × SameFields d e

  pub SameItems : Items → Items → Type 0
  SameItems nil ws = ws ≡ nil
  SameItems (item v vs) ws =
      (w : Value) × (ws' : Items) × (ws ≡ item w ws') × SameShape v w × SameItems vs ws'

  pub SameFields : Fields → Fields → Type 0
  SameFields end e = e ≡ end
  SameFields (entry k v d) e =
      (w : Value) × (e' : Fields) × (e ≡ entry k w e') × SameShape v w × SameFields d e'

then_resolve_inv :
    {A B : Type 0} (r : Resolved A) (f : A → Resolved B) (b : B)
    → then_resolve r f ≡ resolved b
    → (a : A) × (r ≡ resolved a) × (f a ≡ resolved b)
then_resolve_inv (resolved a) f b h = (a, refl, h)
then_resolve_inv (unresolved e) f b h = absurd cc

resolve_value-text :
    (t : Text) (outputs : Fields) (w : Value)
    → resolve_value (text t) outputs ≡ resolved w
    → starts_with ref_prefix t ≡ false
    → w ≡ text t
unfolding resolve_value
resolve_value-text t outputs w h other = ground (arith, h, other)

mutual
  unfolding resolve_references SameShape

  shape_kept :
      (v : Value) (outputs : Fields) (w : Value)
      → resolve_references v outputs ≡ resolved w
      → SameShape v w
  shape_kept null outputs w h = cc
  shape_kept (flag b) outputs w h = cc
  shape_kept (number n) outputs w h = cc
  shape_kept (text t) outputs w h = resolve_value-text t outputs w h
  shape_kept (arr vs) outputs w h =
      let (ws, is, same) =
        then_resolve_inv (resolve_items vs outputs) (λ ws. resolved (arr ws)) w h in
      (ws, cc, items_kept vs outputs ws is)
  shape_kept (obj d) outputs w h =
      let (e, is, same) = then_resolve_inv (resolve_fields d outputs) (λ e. resolved (obj e)) w h in
      (e, cc, fields_kept d outputs e is)

  items_kept :
      (vs : Items) (outputs : Fields) (ws : Items)
      → resolve_items vs outputs ≡ resolved ws
      → SameItems vs ws
  items_kept nil outputs ws h = cc
  items_kept (item v vs) outputs ws h =
      let (w, here, more) =
        then_resolve_inv (resolve_references v outputs)
          (λ w. then_resolve (resolve_items vs outputs) (λ ws. resolved (item w ws))) ws h in
      let (ws', there, same) =
        then_resolve_inv (resolve_items vs outputs) (λ ws. resolved (item w ws)) ws more in
      (w, ws', cc, shape_kept v outputs w here, items_kept vs outputs ws' there)

  fields_kept : (d outputs e : Fields) → resolve_fields d outputs ≡ resolved e → SameFields d e
  fields_kept end outputs e h = cc
  fields_kept (entry k v d) outputs e h =
      let (w, here, more) =
        then_resolve_inv (resolve_references v outputs)
          (λ w. then_resolve (resolve_fields d outputs) (λ e. resolved (entry k w e))) e h in
      let (e', there, same) =
        then_resolve_inv (resolve_fields d outputs) (λ e. resolved (entry k w e)) e more in
      (w, e', cc, shape_kept v outputs w here, fields_kept d outputs e' there)

-- Where its references are resolved, a value keeps its shape: a dictionary has the same keys in the same
-- order and a list as many elements, at every depth, and a text that does not start with `$ref:`, like any
-- number, truth value or null, is what it was.
pub resolve_references-SameShape :
    (v : Value) (outputs : Fields) (w : Value)
    → resolve_references v outputs ≡ resolved w
    → SameShape v w
resolve_references-SameShape v outputs w h = shape_kept v outputs w h
