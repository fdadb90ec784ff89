-- ===== src/Persistence/Relaying.antt =====
-- What the service does to a call that it lets through: services/persistence/service.py, `_invoke` and
-- the cleaning of rows, described without them.
use enterprise_ai_sales_orch.Prelude.{
  sym, ap, ◌↔◌, ℕ, ◌+◌, ◌≡◌, ◌≢◌, ◌⊎◌, Bool-cases, inl, inr, true, false, Option, none, some, List,
  [], ◌∷◌, ◌++◌, refl, arith, map, min, max,
}
use enterprise_ai_sales_orch.Prelude.Text.{
  listed, Text, codes, text_eq, text_eq_refl, text_eq-eq, lower,
}
use enterprise_ai_sales_orch.Effects.{Reply, returned, raised, interrupted}
use enterprise_ai_sales_orch.Persistence.Value.{
  obj, arr, text, number, flag, Value, Fields, null, is_null, end, entry, without_nulls,
}
use enterprise_ai_sales_orch.Persistence.Metrics.{Metrics, Bucket, inc, observe, observed}
use enterprise_ai_sales_orch.Persistence.Service.{
  Error, table_not_allowed, permission_denied, adapter_error, other, permits, wrapped,
}

-- The entries that are not null, in their order.
pub data Cleaned : Fields → Fields → Type 0 where
  no_entry : Cleaned end end
  dropped : (k : Text) (d e : Fields) → Cleaned d e → Cleaned (entry k null d) e
  left_in :
      (k : Text) (v : Value) (d e : Fields)
      → v ≢ null
      → Cleaned d e
      → Cleaned (entry k v d) (entry k v e)

pub data AllCleaned : List Fields → List Fields → Type 0 where
  no_row : AllCleaned [] []
  one_row :
      (d e : Fields) (ds es : List Fields)
      → Cleaned d e
      → AllCleaned ds es
      → AllCleaned (d ∷ ds) (e ∷ es)

-- The error of an adapter, and the one that the caller gets: those of permissions pass, and any other
-- is an `AdapterError` with its text.
pub data Passed (op table : Text) : Error → Error → Type 0 where
  not_allowed : (m : Text) → Passed op table (table_not_allowed m) (table_not_allowed m)
  not_permitted : (m : Text) → Passed op table (permission_denied m) (permission_denied m)
  failed :
      (m : Text)
      → Passed op table (adapter_error m) (
          adapter_error
            (codes "Adapter error during " ++ op ++ codes " on " ++ table ++ codes ": " ++ m))
  unforeseen :
      (m : Text)
      → Passed op table (other m) (
          adapter_error
            (codes "Adapter error during " ++ op ++ codes " on " ++ table ++ codes ": " ++ m))

-- the reply of an adapter, and that of the service
pub data Relayed {A : Type 0} (op table : Text) : Reply A Error → Reply A Error → Type 0 where
  a_value : (a : A) → Relayed op table (returned a) (returned a)
  an_error : (e f : Error) → Passed op table e f → Relayed op table (raised e) (raised f)
  an_end : Relayed op table interrupted interrupted

-- One more latency of so many milliseconds.
pub data OneMore (ms : ℕ) : Option Bucket → Option Bucket → Type 0 where
  first :
      (b : Bucket)
      → b.count ≡ 1
      → b.total ≡ ms
      → b.least ≡ ms
      → b.most ≡ ms
      → OneMore ms none (some b)
  next :
      (a b : Bucket)
      → b.count ≡ a.count + 1
      → b.total ≡ a.total + ms
      → b.least ≡ min ms a.least
      → b.most ≡ max ms a.most
      → OneMore ms (some a) (some b)

-- The metrics after a call: one more of its operation on its table, and no other is changed.
pub record Counted (op table : Text) (ms : ℕ) (before after : Metrics) : Type 0 where
  pub counted : after.counter op table ≡ before.counter op table + 1
  pub measured : OneMore ms (before.latency op table) (after.latency op table)
  pub untouched :
      (op' table' : Text)
      → (op ≢ op') ⊎ (table ≢ table')
      → (after.counter op' table' ≡ before.counter op' table')
        × (after.latency op' table' ≡ before.latency op' table')

-- a table that a list permits: there is no list, or an empty one, or the table is in it
pub data Permitted (tables : Option (List Text)) (table : Text) : Type 0 where
  no_list : tables ≡ none → Permitted tables table
  empty_list : tables ≡ some [] → Permitted tables table
  in_list :
      (before after : List Text)
      → tables ≡ some (before ++ lower table ∷ after)
      → Permitted tables table

is_null-eq : (v : Value) → is_null v ≡ false → v ≢ null
is_null-eq v h = ground (arith, h)

pub without_nulls-Cleaned : (d : Fields) → Cleaned d (without_nulls d)
unfolding without_nulls
without_nulls-Cleaned end = no_entry
without_nulls-Cleaned (entry k null d) = dropped k d (without_nulls d) (without_nulls-Cleaned d)
without_nulls-Cleaned (entry k (flag b) d) =
    left_in k (flag b) d (without_nulls d) (is_null-eq (flag b) refl) (without_nulls-Cleaned d)
without_nulls-Cleaned (entry k (number n) d) =
    left_in k (number n) d (without_nulls d) (is_null-eq (number n) refl) (without_nulls-Cleaned d)
without_nulls-Cleaned (entry k (text t) d) =
    left_in k (text t) d (without_nulls d) (is_null-eq (text t) refl) (without_nulls-Cleaned d)
without_nulls-Cleaned (entry k (arr vs) d) =
    left_in k (arr vs) d (without_nulls d) (is_null-eq (arr vs) refl) (without_nulls-Cleaned d)
without_nulls-Cleaned (entry k (obj e) d) =
    left_in k (obj e) d (without_nulls d) (is_null-eq (obj e) refl) (without_nulls-Cleaned d)

pub map-AllCleaned : (ds : List Fields) → AllCleaned ds (map without_nulls ds)
map-AllCleaned [] = no_row
map-AllCleaned (d ∷ ds) =
    one_row d (without_nulls d) ds (map without_nulls ds) (without_nulls-Cleaned d)
      (map-AllCleaned ds)

pub wrapped-Passed : (op table : Text) (e : Error) → Passed op table e (wrapped op table e)
unfolding wrapped
wrapped-Passed op table (table_not_allowed m) = not_allowed m
wrapped-Passed op table (permission_denied m) = not_permitted m
wrapped-Passed op table (adapter_error m) = failed m
wrapped-Passed op table (other m) = unforeseen m

observed-OneMore : (ms : ℕ) (b : Option Bucket) → OneMore ms b (some (observed ms b))
unfolding observed
observed-OneMore ms none = first _ refl (omega arith) refl refl
observed-OneMore ms (some b) = next b _ refl refl refl refl

pub observe-Counted :
    (op table : Text) (ms : ℕ) (m : Metrics)
    → Counted op table ms m (observe op table ms (inc op table m))
unfolding inc observe
observe-Counted op table ms m = record {
  counted = ground (arith, text_eq_refl op, text_eq_refl table);
  measured =
      rw (text_eq_refl op) (rw (text_eq_refl table) (observed-OneMore ms (m.latency op table)));
  untouched = λ op' table' apart. ground (arith, apart, text_eq-eq op op', text_eq-eq table table');
}

listed-Permitted :
    (t : Text) (ts : List Text)
    → listed t ts ≡ true
    → (before : List Text) × (after : List Text) × (ts ≡ before ++ t ∷ after)
listed-Permitted t [] h = ground (arith, h)
listed-Permitted t (u ∷ us) h = elim (Bool-cases (text_eq t u)) [
  | inl same ↦ ([], us, ap (λ x. x ∷ us) (sym (text_eq-eq t u same)))
  | inr apart ↦
      let (before, after, e) = listed-Permitted t us (ground (arith, h, apart)) in
      (u ∷ before, after, ap (λ xs. u ∷ xs) e)
]

listed_between : (t : Text) (before after : List Text) → listed t (before ++ t ∷ after) ≡ true
listed_between t [] after = rw (text_eq_refl t)
listed_between t (u ∷ before) after = ground (arith, listed_between t before after)

-- a list permits a table where `_check_table` does not raise
pub permits-Permitted :
    (tables : Option (List Text)) (table : Text)
    → (permits tables table ≡ true) ↔ Permitted tables table
permits-Permitted tables table = (yes_there tables, there)
  where
    yes_there : (ts : Option (List Text)) → permits ts table ≡ true → Permitted ts table
    yes_there none h = no_list refl
    yes_there (some []) h = empty_list refl
    yes_there (some (t ∷ ts)) h =
        let (before, after, e) = listed-Permitted (lower table) (t ∷ ts) h in
        in_list before after (ap some e)

    permits_in :
        (before after : List Text) → permits (some (before ++ lower table ∷ after)) table ≡ true
    permits_in [] after = rw (text_eq_refl (lower table))
    permits_in (u ∷ before) after = listed_between (lower table) (u ∷ before) after

    there : Permitted tables table → permits tables table ≡ true
    there (no_list e) = rw e
    there (empty_list e) = rw e
    there (in_list before after e) = rw e (permits_in before after)
