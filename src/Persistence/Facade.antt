-- ===== src/Persistence/Facade.antt =====
-- What the read-only façade lets through to an adapter.
use enterprise_ai_sales_orch.Prelude.{
  ℕ, ◌≡◌, Option, none, some, List, [], ◌∷◌, refl, ap, ◌∙◌, arith,
}
use enterprise_ai_sales_orch.Prelude.Text.{Text, codes}
use enterprise_ai_sales_orch.Effects.{Reply, returned, raised, interrupted}
use enterprise_ai_sales_orch.Persistence.Value.{Value}
use enterprise_ai_sales_orch.Persistence.Service.{
  check_read, Error, Effect, Selection, PersistenceAdapter, PersistenceService, Metered, invoke,
  checked, service_adapter, facade,
}
use enterprise_ai_sales_orch.Persistence.Requests.{
  Request, write_request, batch_request, upsert_request, read_request, query_request,
  columns_request, Answer, rows, found, columns, answered, perform,
}

-- The reads of an adapter change nothing.
pub record ReadsKeep {W : Type 0} (adapter : PersistenceAdapter W) : Type 0 where
  pub read_keeps :
      (table : Text) (value : Value) (column : Text) (w : W)
      → (adapter.read table value column w).1 ≡ w
  pub query_keeps :
      (table : Text) (selection : Selection) (w : W) → (adapter.query table selection w).1 ≡ w
  pub columns_keep : (table : Text) (w : W) → (adapter.get_columns table w).1 ≡ w

-- The world after requests, one after the other.
unfoldable pub perform_all : {W : Type 0} → PersistenceAdapter W → List Request → W → W
unfolding perform
perform_all adapter [] w = w
perform_all adapter (request ∷ requests) w =
    perform_all adapter requests (perform adapter request w).1

answered_world :
    {W A : Type 0} (f : A → Answer) (m : Effect W A) (w : W) → (answered f m w).1 ≡ (m w).1
answered_world {W} {A} f m w = by_reply (m w).0 refl
  where
    by_reply : (r : Reply A Error) → (m w).0 ≡ r → (answered f m w).1 ≡ (m w).1
    by_reply (returned a) e = ground (arith, e)
    by_reply (raised x) e = ground (arith, e)
    by_reply interrupted e = ground (arith, e)

module _ {W : Type 0} (time : W → ℕ) (service : PersistenceService W)
    (keeps : ReadsKeep service.adapter) where
  invoke_world :
      {A : Type 0} (op table : Text) (m : Effect W A) (v : Metered W)
      → (invoke time op table m v).1.0 ≡ (m v.0).1
  unfolding invoke
  invoke_world {A} op table m (w, metrics) = by_reply (m w).0 refl
    where
      by_reply :
          (r : Reply A Error) → (m w).0 ≡ r → (invoke time op table m (w, metrics)).1.0 ≡ (m w).1
      by_reply (returned a) e = ground (arith, e)
      by_reply (raised x) e = ground (arith, e)
      by_reply interrupted e = ground (arith, e)

  checked_keeps :
      {A : Type 0} (f : A → Answer) (o : Option Error) (op table : Text) (m : Effect W A)
      (v : Metered W)
      → ((w : W) → (m w).1 ≡ w)
      → (answered f (checked o (invoke time op table m)) v).1.0 ≡ v.0
  checked_keeps f none op table m v same =
      ap (λ u. u.0) (answered_world f (invoke time op table m) v)
      ∙ invoke_world op table m v
      ∙ same v.0
  checked_keeps f (some e) op table m v same = refl

  facade_step :
      (request : Request) (v : Metered W)
      → (perform (facade (service_adapter time service)) request v).1.0 ≡ v.0
  unfolding perform facade service_adapter
  facade_step (write_request table fields) v = refl
  facade_step (batch_request table records) v = refl
  facade_step (upsert_request table fields keys) v = refl
  facade_step (read_request table value column) v =
      checked_keeps found (check_read time service table) (codes "read") table
        (service.adapter.read table value column) v (keeps.read_keeps table value column)
  facade_step (query_request table selection) v =
      checked_keeps rows (check_read time service table) (codes "query") table
        (service.adapter.query table selection) v (keeps.query_keeps table selection)
  facade_step (columns_request table) v =
      checked_keeps columns (check_read time service table) (codes "get_columns") table
        (service.adapter.get_columns table) v (keeps.columns_keep table)

  -- Through the read-only façade, no requests, whichever they are, change the world of an adapter whose
  -- reads change nothing.
  facade_keeps :
      (requests : List Request) (v : Metered W)
      → (perform_all (facade (service_adapter time service)) requests v).0 ≡ v.0
  unfolding perform_all
  facade_keeps [] v = refl
  facade_keeps (request ∷ requests) v =
      facade_keeps requests (perform (facade (service_adapter time service)) request v).1
      ∙ facade_step request v
