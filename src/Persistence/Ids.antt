-- ===== src/Persistence/Ids.antt =====
-- The ids that the adapter in memory gives to rows which have none.
use enterprise_ai_sales_orch.Prelude.{
  ℕ, ◌+◌, ◌<◌, ◌≡◌, ◌≢◌, ◌++◌, false, some, List, [], ◌∷◌, refl, ap, arith, All, All-append,
}
use enterprise_ai_sales_orch.Prelude.Text.{Text, codes, text_eq, text_eq_refl, decimal}
use enterprise_ai_sales_orch.Prelude.Number.{read_ℕ-decimal}
use enterprise_ai_sales_orch.Persistence.Value.{
  Value, text, null, Fields, get, set, or_null, value_eq, find-set_self, text_apart,
}
use enterprise_ai_sales_orch.Persistence.Memory.{Table, Tables, put, write, first_with, read}

-- The row has an id that was counted before `n`.
abbrev CountedBelow : ℕ → Fields → Type 0
CountedBelow n row = (m : ℕ) × (get (codes "id") row ≡ text (decimal m)) × (m < n)

-- Every id of the table was counted.
unfoldable pub IsNumbered : Table → Type 0
unfolding get
IsNumbered table = All (CountedBelow table.counter) table.rows

decimal_injective : (m n : ℕ) → decimal m ≡ decimal n → m ≡ n
decimal_injective m n h = let m' = read_ℕ-decimal m in let n' = read_ℕ-decimal n in cc

get-set_self : (k : Text) (v : Value) (d : Fields) → get k (set k v d) ≡ v
unfolding get
get-set_self k v d = ap or_null (find-set_self k v d)

first_with-new :
    (n : ℕ) (rows : List Fields) (stored : Fields)
    → All (CountedBelow n) rows
    → get (codes "id") stored ≡ text (decimal n)
    → first_with (codes "id") (text (decimal n)) (rows ++ stored ∷ []) ≡ some stored
unfolding first_with value_eq
first_with-new n [] stored h is = rw (is, text_eq_refl (decimal n)) refl
first_with-new n (row ∷ rows) stored ((m, at, less), h) is =
    let other : decimal m ≢ decimal n = λ e. ground (arith, decimal_injective m n e) in
    let apart : text_eq (decimal m) (decimal n) ≡ false =
      text_apart (decimal m) (decimal n) other in
    rw (at, apart) (first_with-new n rows stored h is)

counted_later :
    (n : ℕ) (rows : List Fields) → All (CountedBelow n) rows → All (CountedBelow (n + 1)) rows
counted_later n [] h = tt
counted_later n (row ∷ rows) ((m, at, less), h) = ((m, at, omega arith), counted_later n rows h)

put_self : (name : Text) (table : Table) (tables : Tables) → put name table tables name ≡ table
unfolding put
put_self name table tables = rw (text_eq_refl name)

-- In a table whose ids were all counted, a record without an id gets one by which it is found again, and
-- all ids of the table are still counted ones.
pub read-write :
    (name : Text) (fields : Fields) (tables : Tables)
    → IsNumbered (tables name)
    → get (codes "id") fields ≡ null
    → (read name
          (get (codes "id") (write name fields tables).0)
          (codes "id")
          (write name fields tables).1
        ≡ some (write name fields tables).0)
      × IsNumbered ((write name fields tables).1 name)
unfolding read write IsNumbered
read-write name fields tables h no_id =
    let n = (tables name).counter in
    let rows = (tables name).rows in
    let stored = set (codes "id") (text (decimal n)) fields in
    let is : get (codes "id") stored ≡ text (decimal n) =
      get-set_self (codes "id") (text (decimal n)) fields in
    let one : All (CountedBelow (n + 1)) (stored ∷ []) = ((n, is, omega arith), tt) in
    let table : Table = record { rows = rows ++ stored ∷ []; counter = n + 1 } in
    rw (no_id, put_self name table tables, is)
      (
        first_with-new n rows stored h is,
        All-append (CountedBelow (n + 1)) rows (stored ∷ []) (counted_later n rows h) one,
      )
