-- ===== src/Persistence/Guarding.antt =====
-- What the service lets through to an adapter.
use enterprise_ai_sales_orch.Prelude.{
  ◌++◌, ◌-◌, Bool-cases, ℕ, ◌≡◌, inl, inr, Option, List, refl, map, if◌then◌else◌,
}
use enterprise_ai_sales_orch.Prelude.Text.{Text, codes}
use enterprise_ai_sales_orch.Effects.{Reply, returned, raised, interrupted}
use enterprise_ai_sales_orch.Persistence.Value.{without_nulls}
use enterprise_ai_sales_orch.Persistence.Metrics.{Metrics}
use enterprise_ai_sales_orch.Persistence.Requests.{
  Request, write_request, batch_request, upsert_request, read_request, query_request,
  columns_request, Answer, row, rows, found, columns, answered, perform, table_of, is_write, Sent,
  sent_write, sent_batch, sent_upsert, sent_read, sent_query, sent_columns, operation_of, access_of,
}
use enterprise_ai_sales_orch.Persistence.Relaying.{
  Relayed, a_value, an_error, an_end, Counted, Permitted, permits-Permitted, without_nulls-Cleaned,
  map-AllCleaned, wrapped-Passed, observe-Counted,
}
use enterprise_ai_sales_orch.Persistence.Service.{
  wrapped, table_not_allowed, Error, not_permitted, Effect, PersistenceService, permits,
  check_table, Metered, invoke, checked, service_adapter,
}

module _ {W : Type 0} (time : W → ℕ) (service : PersistenceService W) where
  abbrev pub list_of : Request → Option (List Text)
  list_of request = if is_write request then service.write_allowlist else service.read_allowlist

  -- The service answers as its adapter does to a call, and counts it.
  pub record Through (op table : Text) (inner : Reply Answer Error × W) (w : W) (metrics : Metrics)
      (out : Reply Answer Error × Metered W) : Type 0 where
    pub reply : Relayed op table inner.0 out.0
    pub world : out.1.0 ≡ inner.1
    pub metered : Counted op table (time inner.1 - time w) metrics out.1.1

  -- The promise: a request to a table that is not permitted is refused, with nothing touched; any other
  -- is answered by the adapter.
  pub record Promised (request : Request) (w : W) (metrics : Metrics) : Type 0 where
    pub let_through :
        Permitted (list_of request) (table_of request)
        → (sent : Request) × Sent request sent
          × Through
              (operation_of request)
              (table_of request)
              (perform service.adapter sent w)
              w
              metrics
              (perform (service_adapter time service) request (w, metrics))
    pub refused :
        ¬ Permitted (list_of request) (table_of request)
        → perform (service_adapter time service) request (w, metrics) ≡ (
          raised (
              table_not_allowed (
                access_of request
                ++ codes " access to table '"
                ++ table_of request
                ++ codes "' is not permitted by policy")),
          (w, metrics),
        )

  reply-Through :
      {A : Type 0} (f : A → Answer) (op table : Text) (inner : Reply A Error × W) (w : W)
      (metrics : Metrics)
      → let m : Effect W A = λ _. inner in
        Through op table
          (answered f m w)
          w
          metrics
          (answered f (invoke time op table m) (w, metrics))
  unfolding invoke
  reply-Through f op table (returned a, v) w metrics = record {
    reply = a_value (f a);
    world = refl;
    metered = observe-Counted op table (time v - time w) metrics;
  }
  reply-Through f op table (raised x, v) w metrics = record {
    reply = an_error x (wrapped op table x) (wrapped-Passed op table x);
    world = refl;
    metered = observe-Counted op table (time v - time w) metrics;
  }
  reply-Through f op table (interrupted, v) w metrics = record {
    reply = an_end;
    world = refl;
    metered = observe-Counted op table (time v - time w) metrics;
  }

  invoke-Through :
      {A : Type 0} (f : A → Answer) (op table : Text) (m : Effect W A) (w : W) (metrics : Metrics)
      → Through op table
          (answered f m w)
          w
          metrics
          (answered f (invoke time op table m) (w, metrics))
  unfolding invoke
  invoke-Through f op table m w metrics = reply-Through f op table (m w) w metrics

  module _ {A : Type 0} (f : A → Answer) (tables : Option (List Text)) (access op table : Text)
      (m : Effect W A) (w : W) (metrics : Metrics) where
    guarded : Reply Answer Error × Metered W
    guarded =
        answered f (checked (check_table tables access table) (invoke time op table m)) (w, metrics)

    guarded-Through : Permitted tables table → Through op table (answered f m w) w metrics guarded
    unfolding guarded check_table
    guarded-Through permitted =
        let passes = (permits-Permitted tables table).1 permitted in
        rw passes (invoke-Through f op table m w metrics)

    guarded_refused :
        ¬ Permitted tables table → guarded ≡ (raised (not_permitted access table), (w, metrics))
    unfolding guarded check_table
    guarded_refused not_there = elim (Bool-cases (permits tables table)) [
      | inl passes ↦ absurd (not_there ((permits-Permitted tables table).0 passes))
      | inr fails ↦ rw fails
    ]

    -- both ways of the guard
    guarded_lem :
        (Permitted tables table → Through op table (answered f m w) w metrics guarded)
        × (¬ Permitted tables table → guarded ≡ (raised (not_permitted access table), (w, metrics)))
    guarded_lem = (guarded-Through, guarded_refused)

  -- Whatever the adapter does: a request to a table that its list does not permit raises the error of a
  -- table that is not allowed, and neither the adapter nor the metrics are touched. Any other request
  -- goes to the adapter without the null entries of its rows; its reply is the adapter's, where an error
  -- other than those of permissions is an `AdapterError` with its text; and of the metrics only those
  -- of the operation and the table change, by one call and its latency.
  pub perform-Promised :
      (request : Request) (w : W) (metrics : Metrics) → Promised request w metrics
  unfolding perform service_adapter guarded
  perform-Promised (write_request table fields) w metrics =
      let g =
        guarded_lem row service.write_allowlist (codes "Write") (codes "write") table
          (service.adapter.write table (without_nulls fields)) w metrics in
      record {
        let_through = λ p. (
          write_request table (without_nulls fields),
          sent_write table fields (without_nulls fields) (without_nulls-Cleaned fields),
          g.0 p,
        );
        refused = g.1;
      }
  perform-Promised (batch_request table records) w metrics =
      let g =
        guarded_lem rows service.write_allowlist (codes "Write") (codes "batch_write") table
          (service.adapter.batch_write table (map without_nulls records)) w metrics in
      record {
        let_through = λ p. (
          batch_request table (map without_nulls records),
          sent_batch table records (map without_nulls records) (map-AllCleaned records),
          g.0 p,
        );
        refused = g.1;
      }
  perform-Promised (upsert_request table fields keys) w metrics =
      let g =
        guarded_lem row service.write_allowlist (codes "Write") (codes "upsert") table
          (service.adapter.upsert table (without_nulls fields) keys) w metrics in
      record {
        let_through = λ p. (
          upsert_request table (without_nulls fields) keys,
          sent_upsert table fields (without_nulls fields) keys (without_nulls-Cleaned fields),
          g.0 p,
        );
        refused = g.1;
      }
  perform-Promised (read_request table value column) w metrics =
      let g =
        guarded_lem found service.read_allowlist (codes "Read") (codes "read") table
          (service.adapter.read table value column) w metrics in
      record {
        let_through = λ p. (read_request table value column, sent_read table value column, g.0 p);
        refused = g.1;
      }
  perform-Promised (query_request table selection) w metrics =
      let g =
        guarded_lem rows service.read_allowlist (codes "Read") (codes "query") table
          (service.adapter.query table selection) w metrics in
      record {
        let_through = λ p. (query_request table selection, sent_query table selection, g.0 p);
        refused = g.1;
      }
  perform-Promised (columns_request table) w metrics =
      let g =
        guarded_lem columns service.read_allowlist (codes "Read") (codes "get_columns") table
          (service.adapter.get_columns table) w metrics in
      record {
        let_through = λ p. (columns_request table, sent_columns table, g.0 p);
        refused = g.1;
      }
