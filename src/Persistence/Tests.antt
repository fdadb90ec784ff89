-- ===== src/Persistence/Tests.antt =====
-- The adapter in memory under the service.
use enterprise_ai_sales_orch.Prelude.{
  ℕ, ◌≡◌, ◌↔◌, Bool, true, Option, none, some, List, [], ◌∷◌, refl,
}
use enterprise_ai_sales_orch.Prelude.Text.{or_empty, Text, codes, lower}
use enterprise_ai_sales_orch.Effects.{Reply, returned, raised}
use enterprise_ai_sales_orch.Persistence.Value.{text, null, Fields, end, entry, get}
use enterprise_ai_sales_orch.Persistence.Memory.{
  Tables, clear_tables, write, batch_write, upsert, read, query, get_columns, wildcard_match, split,
}
use enterprise_ai_sales_orch.Persistence.Wildcards.{InOrder, wildcard_match-InOrder}
use enterprise_ai_sales_orch.Persistence.Ids.{IsNumbered, read-write}
use enterprise_ai_sales_orch.Persistence.Metrics.{no_metrics}
use enterprise_ai_sales_orch.Persistence.Service.{
  Error, Selection, other, PersistenceAdapter, PersistenceService, persistence_service,
}
use enterprise_ai_sales_orch.Persistence.Guarding.{Promised, perform-Promised}
use enterprise_ai_sales_orch.Persistence.Requests.{write_request}
use enterprise_ai_sales_orch.Persistence.Facade.{ReadsKeep}

wildcard_match-InOrder_example :
    (wildcard_match (text (codes "Ada Lovelace")) (codes "a%LACE") ≡ true)
    ↔ InOrder (split b'%' (lower (codes "a%LACE"))) (lower (codes "Ada Lovelace"))
wildcard_match-InOrder_example = wildcard_match-InOrder (codes "Ada Lovelace") (codes "a%LACE")

abbrev ada : Fields
ada = entry (codes "name") (text (codes "Ada")) (entry (codes "note") null end)

read-write_example :
    (read
        (codes "leads")
        (get (codes "id") (write (codes "leads") ada clear_tables).0)
        (codes "id")
        (write (codes "leads") ada clear_tables).1
      ≡ some (write (codes "leads") ada clear_tables).0)
    × IsNumbered ((write (codes "leads") ada clear_tables).1 (codes "leads"))
unfolding clear_tables IsNumbered get
read-write_example = read-write (codes "leads") ada clear_tables tt refl

-- the adapter in memory, where nothing is sorted
sorted_rows : Text → Bool → List Fields → Option (List Fields)
sorted_rows column descending rows = some rows

or_other : {A : Type 0} → Option A → Reply A Error
or_other none = raised (other (codes "TypeError"))
or_other (some a) = returned a

or_none : Option Fields → Fields
or_none none = end
or_none (some d) = d

or_empty_list : Option (List Text) → List Text
or_empty_list none = []
or_empty_list (some ts) = ts

selected_rows : Text → Selection → Tables → Option (List Fields)
selected_rows table s =
    query sorted_rows table (or_none s.filters) s.limit (or_empty s.order_by) s.descending
      (or_empty_list s.select)

abbrev in_memory : PersistenceAdapter Tables
in_memory = record {
  write = λ table fields w. let (row, w') = write table fields w in (returned row, w');
  batch_write =
      λ table records w. let (rows, w') = batch_write table records w in (returned rows, w');
  upsert = λ table fields keys w.
      let (row, w') = upsert table fields (or_empty_list keys) w in (returned row, w');
  read = λ table value column w. (returned (read table value column w), w);
  query = λ table s w. (or_other (selected_rows table s w), w);
  get_columns = λ table w. (returned (some (get_columns (λ names. names) table w)), w);
}

in_memory-ReadsKeep : ReadsKeep in_memory
in_memory-ReadsKeep = record {
  read_keeps = λ table value column w. refl;
  query_keeps = λ table s w. refl;
  columns_keep = λ table w. refl;
}

time : Tables → ℕ
time w = 0

-- only the reads are listed
abbrev reading : PersistenceService Tables
reading = persistence_service in_memory none (some (codes "Leads" ∷ [])) none

-- a row with a null entry, which the list for reads does not stop
perform-Promised_example :
    Promised time reading
      (write_request (codes "leads") (entry (codes "id") null end))
      clear_tables
      no_metrics
perform-Promised_example =
    perform-Promised time reading (write_request (codes "leads") (entry (codes "id") null end))
      clear_tables no_metrics
