-- ===== src/Persistence/Requests.antt =====
-- The calls of an adapter of services/persistence/service.py as values, and what the service makes of
-- them.
use enterprise_ai_sales_orch.Prelude.{Bool, true, false, Option, List, if◌then◌else◌}
use enterprise_ai_sales_orch.Prelude.Text.{Text, codes}
use enterprise_ai_sales_orch.Effects.{returned, raised, interrupted}
use enterprise_ai_sales_orch.Persistence.Value.{Value, Fields}
use enterprise_ai_sales_orch.Persistence.Relaying.{Cleaned, AllCleaned}
use enterprise_ai_sales_orch.Persistence.Service.{Effect, Selection, PersistenceAdapter}

-- A call of a method of an adapter, and what it may return.
pub data Request : Type 0 where
  write_request : Text → Fields → Request
  batch_request : Text → List Fields → Request
  upsert_request : Text → Fields → Option (List Text) → Request
  read_request : Text → Value → Text → Request
  query_request : Text → Selection → Request
  columns_request : Text → Request

pub data Answer : Type 0 where
  row : Fields → Answer
  rows : List Fields → Answer
  found : Option Fields → Answer
  columns : Option (List Text) → Answer

abbrev pub answered : {W A : Type 0} → (A → Answer) → Effect W A → Effect W Answer
answered f m w = elim (m w).0 [
  | returned a ↦ (returned (f a), (m w).1)
  | raised e ↦ (raised e, (m w).1)
  | interrupted ↦ (interrupted, (m w).1)
]

unfoldable pub perform : {W : Type 0} → PersistenceAdapter W → Request → Effect W Answer
perform adapter (write_request table fields) = answered row (adapter.write table fields)
perform adapter (batch_request table records) = answered rows (adapter.batch_write table records)
perform adapter (upsert_request table fields keys) = answered row (adapter.upsert table fields keys)
perform adapter (read_request table value column) = answered found (adapter.read table value column)
perform adapter (query_request table selection) = answered rows (adapter.query table selection)
perform adapter (columns_request table) = answered columns (adapter.get_columns table)

abbrev pub table_of : Request → Text
table_of (write_request table fields) = table
table_of (batch_request table records) = table
table_of (upsert_request table fields keys) = table
table_of (read_request table value column) = table
table_of (query_request table selection) = table
table_of (columns_request table) = table

abbrev pub is_write : Request → Bool
is_write (write_request table fields) = true
is_write (batch_request table records) = true
is_write (upsert_request table fields keys) = true
is_write _ = false

-- The call that the adapter gets: the same, with the null entries left out of the rows.
pub data Sent : Request → Request → Type 0 where
  sent_write :
      (table : Text) (d e : Fields)
      → Cleaned d e
      → Sent (write_request table d) (write_request table e)
  sent_batch :
      (table : Text) (ds es : List Fields)
      → AllCleaned ds es
      → Sent (batch_request table ds) (batch_request table es)
  sent_upsert :
      (table : Text) (d e : Fields) (keys : Option (List Text))
      → Cleaned d e
      → Sent (upsert_request table d keys) (upsert_request table e keys)
  sent_read :
      (table : Text) (value : Value) (column : Text)
      → Sent (read_request table value column) (read_request table value column)
  sent_query :
      (table : Text) (selection : Selection)
      → Sent (query_request table selection) (query_request table selection)
  sent_columns : (table : Text) → Sent (columns_request table) (columns_request table)

abbrev pub operation_of : Request → Text
operation_of (write_request table fields) = codes "write"
operation_of (batch_request table records) = codes "batch_write"
operation_of (upsert_request table fields keys) = codes "upsert"
operation_of (read_request table value column) = codes "read"
operation_of (query_request table selection) = codes "query"
operation_of (columns_request table) = codes "get_columns"

abbrev pub access_of : Request → Text
access_of request = if is_write request then codes "Write" else codes "Read"
