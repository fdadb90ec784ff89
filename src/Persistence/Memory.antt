-- ===== src/Persistence/Memory.antt =====
-- services/persistence/adapters/in_memory_adapter.py: `InMemoryAdapter`. A table that was never used is an
-- empty one with the counter 1, as `_ensure` makes it. Rows are values: nothing that changes a returned
-- dictionary in place is modelled. `list.sort` is a parameter; none is the `TypeError` of a comparison.
use enterprise_ai_sales_orch.Prelude.{
  length, drop, ◌==◌, ℕ, ◌+◌, ◌++◌, Bool, true, false, ◌&&◌, Option, none, some, List, [], ◌∷◌,
  take, keep, map, if◌then◌else◌,
}
use enterprise_ai_sales_orch.Prelude.Text.{
  occurs, Text, codes, text_eq, truthy, lower, decimal, starts_with,
}
use enterprise_ai_sales_orch.Persistence.Value.{
  Value, text, null, Fields, end, entry, has_key, get, set, merge, value_eq,
}

pub record Table : Type 0 where
  pub rows : List Fields
  pub counter : ℕ

-- `_tables` and `_counters`
abbrev pub Tables : Type 0
Tables = Text → Table

-- `InMemoryAdapter()`, and `clear_tables`
unfoldable pub clear_tables : Tables
clear_tables t = record { rows = []; counter = 1 }

unfoldable pub put : Text → Table → Tables → Tables
put name table tables t = if text_eq name t then table else tables t

-- `s.split(c)`
unfoldable pub split : ℕ → Text → List Text
split c [] = [] ∷ []
split c (d ∷ s) = if c == d then [] ∷ split c s else join d (split c s)
  where
    join : ℕ → List Text → List Text
    join d [] = (d ∷ []) ∷ []
    join d (t ∷ ts) = (d ∷ t) ∷ ts

-- what stands behind the first `part` in the text
unfoldable pub behind : Text → Text → Option Text
behind part [] = if truthy part then none else some []
behind part (c ∷ s) =
    let later = behind part s in
    if starts_with part (c ∷ s) then some (drop (length part) (c ∷ s)) else later

-- the loop of `_wildcard_match` over the parts: the text is what stands from `pos` on
unfoldable pub match_parts : List Text → Text → Bool
unfolding behind
match_parts [] s = true
match_parts (part ∷ parts) s =
    if truthy part
    then elim (behind part s) [ none ↦ false | some rest ↦ match_parts parts rest ]
    else match_parts parts s

unfoldable pub wildcard_match : Value → Text → Bool
unfolding match_parts split
wildcard_match (text s) pattern = match_parts (split b'%' (lower pattern)) (lower s)
wildcard_match _ pattern = false

-- the test of one filter in `query`
unfoldable pub matches_filter : Value → Value → Bool
unfolding wildcard_match value_eq
matches_filter value (text t) =
    if occurs (b'%' ∷ []) t then wildcard_match value t else value_eq value (text t)
matches_filter value v = value_eq value v

unfoldable pub matches_all : Fields → Fields → Bool
unfolding matches_filter get
matches_all end row = true
matches_all (entry k v filters) row = matches_filter (get k row) v && matches_all filters row

-- the id of a row, and the counter after it
abbrev pub own_or_next : Value → ℕ → Value × ℕ
own_or_next null n = (text (decimal n), n + 1)
own_or_next v n = (v, n)

unfoldable pub write : Text → Fields → Tables → Fields × Tables
unfolding get set put
write name fields tables =
    let table = tables name in
    let (rid, n) = own_or_next (get (codes "id") fields) table.counter in
    let stored = set (codes "id") rid fields in
    (stored, put name (record { rows = table.rows ++ stored ∷ []; counter = n }) tables)

unfoldable pub batch_write : Text → List Fields → Tables → List Fields × Tables
unfolding write
batch_write name [] tables = ([], tables)
batch_write name (r ∷ records) tables =
    let (stored, tables') = write name r tables in
    let (rest, tables'') = batch_write name records tables' in (stored ∷ rest, tables'')

-- `all(existing.get(k) == record.get(k) for k in on_conflict)`
unfoldable pub same_on : List Text → Fields → Fields → Bool
unfolding get value_eq
same_on [] existing fields = true
same_on (k ∷ ks) existing fields =
    value_eq (get k existing) (get k fields) && same_on ks existing fields

-- the row of an upsert that found one
unfoldable pub updated : Fields → Fields → Fields
unfolding merge has_key set get
updated existing fields =
    let both = merge existing fields in
    if has_key (codes "id") both then both else set (codes "id") (get (codes "id") existing) both

-- the loop of `upsert`: the updated row and the rows with it, or none if no row is the same
unfoldable pub update_first : List Text → Fields → List Fields → Option (Fields × List Fields)
unfolding same_on updated
update_first ks fields [] = none
update_first ks fields (row ∷ rows) =
    let later = update_first ks fields rows in
    if same_on ks row fields
    then some (updated row fields, updated row fields ∷ rows)
    else elim later [ none ↦ none | some found ↦ some (found.0, row ∷ found.1) ]

unfoldable pub upsert : Text → Fields → List Text → Tables → Fields × Tables
unfolding write update_first put
upsert name fields [] tables = write name fields tables
upsert name fields (k ∷ ks) tables = elim (update_first (k ∷ ks) fields (tables name).rows) [
  | none ↦ write name fields tables
  | some found ↦
      (found.0, put name (record { rows = found.1; counter = (tables name).counter }) tables)
]

unfoldable pub first_with : Text → Value → List Fields → Option Fields
unfolding get value_eq
first_with column v [] = none
first_with column v (row ∷ rows) =
    if value_eq (get column row) v then some row else first_with column v rows

unfoldable pub read : Text → Value → Text → Tables → Option Fields
unfolding first_with
read name id_value id_column tables = first_with id_column id_value (tables name).rows

-- `{k: r.get(k) for k in select}`
unfoldable pub projected : List Text → Fields → Fields
unfolding get set
projected ks r = from ks end
  where
    from : List Text → Fields → Fields
    from [] row = row
    from (k ∷ ks) row = from ks (set k (get k r) row)

abbrev pub selected : List Text → List Fields → List Fields
selected [] rows = rows
selected (k ∷ ks) rows = map (projected (k ∷ ks)) rows

abbrev pub limited : Option ℕ → List Fields → List Fields
limited none rows = rows
limited (some n) rows = take n rows

module _ (sort : Text → Bool → List Fields → Option (List Fields)) where
  -- an empty `order_by` or `select` is the same as none; a limit is not negative
  unfoldable pub query :
      Text → Fields → Option ℕ → Text → Bool → List Text → Tables → Option (List Fields)
  unfolding matches_all
  query name filters limit order_by descending select tables =
      let results = keep (matches_all filters) (tables name).rows in
      let ordered = if truthy order_by then sort order_by descending results else some results in
      elim ordered [ none ↦ none | some rows ↦ some (limited limit (selected select rows)) ]

-- the keys of every row
unfoldable pub names_of : List Fields → List Text
names_of [] = []
names_of (row ∷ rows) = keys row (names_of rows)
  where
    keys : Fields → List Text → List Text
    keys end names = names
    keys (entry k v d) names = k ∷ keys d names

-- `sorted` of a set of texts
unfoldable pub get_columns : (List Text → List Text) → Text → Tables → List Text
unfolding names_of
get_columns sorted_set name tables = sorted_set (names_of (tables name).rows)
