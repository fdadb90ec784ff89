-- ===== src/Persistence/Value.antt =====
-- The values that rows, payloads and results hold: those of JSON, with Python's operations on them. A
-- number is an integer, and a dictionary is its entries in order, each key once.
use enterprise_ai_sales_orch.Prelude.{
  ℕ, zero, suc, ◌+◌, ◌==◌, Bool, true, false, ◌&&◌, ◌||◌, Option, none, some, ◌≡◌, arith,
  if◌then◌else◌, Bool-cases, inl, inr, ◌≢◌,
}
use enterprise_ai_sales_orch.Prelude.Int.{ℤ, pos, negsuc, pos_part, neg_part}
use enterprise_ai_sales_orch.Prelude.Text.{Text, text_eq, text_eq_refl, text_eq-eq, truthy}

mutual
  pub data Value : Type 0 where
    null : Value
    flag : Bool → Value
    number : ℤ → Value
    text : Text → Value
    arr : Items → Value
    obj : Fields → Value

  pub data Items : Type 0 where
    nil : Items
    item : Value → Items → Items

  pub data Fields : Type 0 where
    end : Fields
    entry : Text → Value → Fields → Fields

-- `d[key]`, or none where it raises a `KeyError`
unfoldable pub find : Text → Fields → Option Value
find k end = none
find k (entry j v d) = if text_eq j k then some v else find k d

-- `key in d`
unfoldable pub has_key : Text → Fields → Bool
has_key k end = false
has_key k (entry j v d) = text_eq j k || has_key k d

abbrev pub or_null : Option Value → Value
or_null none = null
or_null (some v) = v

-- an optional text as a value
abbrev pub text_or_null : Option Text → Value
text_or_null none = null
text_or_null (some t) = text t

-- `d.get(key)`
unfoldable pub get : Text → Fields → Value
unfolding find
get k d = or_null (find k d)

-- `d[key] = value`: in the place of the key, or at the end
unfoldable pub set : Text → Value → Fields → Fields
set k v end = entry k v end
set k v (entry j w d) = if text_eq j k then entry j v d else entry j w (set k v d)

-- `{**d, **e}`
unfoldable pub merge : Fields → Fields → Fields
unfolding set
merge d end = d
merge d (entry k v e) = merge (set k v d) e

abbrev pub is_null : Value → Bool
is_null null = true
is_null _ = false

-- `bool(v)`
unfoldable pub is_true : Value → Bool
is_true null = false
is_true (flag b) = b
is_true (number (pos zero)) = false
is_true (number (pos (suc n))) = true
is_true (number (negsuc n)) = true
is_true (text t) = truthy t
is_true (arr nil) = false
is_true (arr (item v vs)) = true
is_true (obj end) = false
is_true (obj (entry k v d)) = true

-- the number that a value counts as: `True` is 1 and `False` is 0
unfoldable pub as_number : Value → Option ℤ
as_number null = none
as_number (flag b) = some (pos (if b then 1 else 0))
as_number (number n) = some n
as_number (text t) = none
as_number (arr vs) = none
as_number (obj d) = none

abbrev pub same_number : Option ℤ → Option ℤ → Bool
same_number (some m) (some n) = (pos_part m == pos_part n) && (neg_part m == neg_part n)
same_number _ _ = false

abbrev pub count_fields : Fields → ℕ
count_fields end = 0
count_fields (entry k v d) = count_fields d + 1

-- `v == w`: numbers by their values, dictionaries whatever their order
unfoldable mutual
  unfolding as_number find

  pub value_eq : Value → Value → Bool
  value_eq null w = is_null w
  value_eq (flag b) w = same_number (some (pos (if b then 1 else 0))) (as_number w)
  value_eq (number n) w = same_number (some n) (as_number w)
  value_eq (text t) w = elim w [ text u ↦ text_eq t u | _ ↦ false ]
  value_eq (arr vs) w = elim w [ arr ws ↦ items_eq vs ws | _ ↦ false ]
  value_eq (obj d) w = elim w [
    | obj e ↦ (count_fields d == count_fields e) && fields_within d e
    | _ ↦ false
  ]

  pub items_eq : Items → Items → Bool
  items_eq nil ws = elim ws [ nil ↦ true | item w ws' ↦ false ]
  items_eq (item v vs) ws = elim ws [ nil ↦ false | item w ws' ↦ value_eq v w && items_eq vs ws' ]

  -- every entry of the one dictionary is in the other
  pub fields_within : Fields → Fields → Bool
  fields_within end e = true
  fields_within (entry k v d) e = elim (find k e) [
    | none ↦ false
    | some w ↦ value_eq v w && fields_within d e
  ]

-- `{k: v for k, v in d.items() if v is not None}`
unfoldable pub without_nulls : Fields → Fields
without_nulls end = end
without_nulls (entry k v d) = if is_null v then without_nulls d else entry k v (without_nulls d)

pub text_apart : (j k : Text) → j ≢ k → text_eq j k ≡ false
text_apart j k h = elim (Bool-cases (text_eq j k)) [
  | inl same ↦ absurd (h (text_eq-eq j k same))
  | inr other ↦ other
]

pub find-set_self : (k : Text) (v : Value) (d : Fields) → find k (set k v d) ≡ some v
unfolding find set
find-set_self k v end = rw (text_eq_refl k)
find-set_self k v (entry j w d) = ground (arith, find-set_self k v d)

pub find-set_other :
    (k j : Text) (v : Value) (d : Fields) → text_eq k j ≡ false → find j (set k v d) ≡ find j d
unfolding find set
find-set_other k j v end h = rw h
find-set_other k j v (entry i w d) h = elim (Bool-cases (text_eq i k)) [
  | inl same ↦
      let is : i ≡ k = text_eq-eq i k same in
      let apart : text_eq i j ≡ false = rw is h in rw (same, apart)
  | inr other ↦ ground (arith, other, find-set_other k j v d h)
]
