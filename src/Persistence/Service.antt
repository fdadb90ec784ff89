-- ===== src/Persistence/Service.antt =====
-- services/persistence/service.py: `PersistenceService` over an adapter, and the façade that only reads.
-- The interface of an adapter is a record of what its methods do to a world; `Error` are the exceptions
-- of services/persistence/exceptions.py, with their messages, and `other` any other one. The constants of
-- the environment only choose what is printed, which is left out.
use enterprise_ai_sales_orch.Prelude.{
  ℕ, ◌-◌, ◌++◌, Bool, true, Option, none, some, List, [], ◌∷◌, map, if◌then◌else◌,
}
use enterprise_ai_sales_orch.Prelude.Text.{Text, codes, lower, listed}
use enterprise_ai_sales_orch.Effects.{Reply, returned, raised, interrupted}
use enterprise_ai_sales_orch.Persistence.Value.{Value, Fields, without_nulls}
use enterprise_ai_sales_orch.Persistence.Metrics.{Metrics, inc, observe}

pub data Error : Type 0 where
  table_not_allowed : Text → Error
  permission_denied : Text → Error
  adapter_error : Text → Error
  other : Text → Error

-- What an operation does to a world: it returns, raises an `Exception`, or is interrupted.
abbrev pub Effect : Type 0 → Type 0 → Type 0
Effect W A = W → Reply A Error × W

-- `filters`, `limit`, `order_by`, `descending` and `select`
pub record Selection : Type 0 where
  pub filters : Option Fields
  pub limit : Option ℕ
  pub order_by : Option Text
  pub descending : Bool
  pub select : Option (List Text)

-- the protocol `PersistenceAdapter`
pub record PersistenceAdapter (W : Type 0) : Type 0 where
  pub write : Text → Fields → Effect W Fields
  pub batch_write : Text → List Fields → Effect W (List Fields)
  pub upsert : Text → Fields → Option (List Text) → Effect W Fields
  pub read : Text → Value → Text → Effect W (Option Fields)
  pub query : Text → Selection → Effect W (List Fields)
  pub get_columns : Text → Effect W (Option (List Text))

pub record PersistenceService (W : Type 0) : Type 0 where
  pub adapter : PersistenceAdapter W
  pub read_allowlist : Option (List Text)
  pub write_allowlist : Option (List Text)

-- `set(t.lower() for t in tables) or None`
unfoldable pub allowlist : Option (List Text) → Option (List Text)
allowlist none = none
allowlist (some []) = none
allowlist (some (t ∷ ts)) = some (map lower (t ∷ ts))

-- the constructor: `allowed_tables`, `read_allowlist`, `write_allowlist`
unfoldable pub persistence_service :
    {W : Type 0}
    → PersistenceAdapter W
    → Option (List Text)
    → Option (List Text)
    → Option (List Text)
    → PersistenceService W
unfolding allowlist
persistence_service adapter allowed none none = record {
  adapter = adapter;
  read_allowlist = allowlist allowed;
  write_allowlist = allowlist allowed;
}
persistence_service adapter allowed reads writes = record {
  adapter = adapter;
  read_allowlist = allowlist reads;
  write_allowlist = allowlist writes;
}

abbrev pub permits : Option (List Text) → Text → Bool
permits none table = true
permits (some []) table = true
permits (some (t ∷ ts)) table = listed (lower table) (t ∷ ts)

abbrev pub not_permitted : Text → Text → Error
not_permitted access table =
    table_not_allowed
      (access ++ codes " access to table '" ++ table ++ codes "' is not permitted by policy")

-- what `_check_table` raises, with the list of its access and the name of it
unfoldable pub check_table : Option (List Text) → Text → Text → Option Error
check_table tables access table =
    if permits tables table then none else some (not_permitted access table)

-- `str(e)`
unfoldable pub message : Error → Text
message (table_not_allowed m) = m
message (permission_denied m) = m
message (adapter_error m) = m
message (other m) = m

-- the handlers of `_invoke`
unfoldable pub wrapped : Text → Text → Error → Error
unfolding message
wrapped op table (table_not_allowed m) = table_not_allowed m
wrapped op table (permission_denied m) = permission_denied m
wrapped op table e =
    adapter_error
      (codes "Adapter error during " ++ op ++ codes " on " ++ table ++ codes ": " ++ message e)

-- the adapter's world and the metrics
abbrev pub Metered : Type 0 → Type 0
Metered W = W × Metrics

-- nothing is called where the check raises
abbrev pub checked : {V A : Type 0} → Option Error → Effect V A → Effect V A
checked (some e) m v = (raised e, v)
checked none m v = m v

module _ {W : Type 0} (time : W → ℕ) where
  unfoldable pub invoke : {A : Type 0} → Text → Text → Effect W A → Effect (Metered W) A
  unfolding wrapped inc observe
  invoke op table func (w, metrics) =
      let (reply, w') = func w in
      let metrics' = observe op table (time w' - time w) (inc op table metrics) in
      elim reply [
        | returned a ↦ (returned a, (w', metrics'))
        | raised e ↦ (raised (wrapped op table e), (w', metrics'))
        | interrupted ↦ (interrupted, (w', metrics'))
      ]

  module _ (service : PersistenceService W) where
    abbrev pub check_write : Text → Option Error
    check_write = check_table service.write_allowlist (codes "Write")

    abbrev pub check_read : Text → Option Error
    check_read = check_table service.read_allowlist (codes "Read")

    -- The methods of the service have the names and the arguments of the adapter's.
    unfoldable pub service_adapter : PersistenceAdapter (Metered W)
    unfolding check_table invoke
    service_adapter = record {
      write = λ table fields.
          checked (check_write table)
            (invoke (codes "write") table (service.adapter.write table (without_nulls fields)));
      batch_write = λ table records. checked (check_write table) (
          invoke (codes "batch_write") table
            (service.adapter.batch_write table (map without_nulls records)));
      upsert = λ table fields on_conflict. checked (check_write table) (
          invoke (codes "upsert") table
            (service.adapter.upsert table (without_nulls fields) on_conflict));
      read = λ table id_value id_column.
          checked (check_read table)
            (invoke (codes "read") table (service.adapter.read table id_value id_column));
      query = λ table selection.
          checked (check_read table)
            (invoke (codes "query") table (service.adapter.query table selection));
      get_columns = λ table.
          checked (check_read table)
            (invoke (codes "get_columns") table (service.adapter.get_columns table));
    }

abbrev denied : {V A : Type 0} → Effect V A
denied v = (raised (permission_denied (codes "Write not permitted on read-only facade")), v)

-- `ReadOnlyPersistenceFacade(service)`
unfoldable pub facade : {V : Type 0} → PersistenceAdapter V → PersistenceAdapter V
facade service = record {
  write = λ table fields. denied;
  batch_write = λ table records. denied;
  upsert = λ table fields on_conflict. denied;
  read = service.read;
  query = service.query;
  get_columns = service.get_columns;
}
