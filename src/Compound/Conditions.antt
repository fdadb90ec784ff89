-- ===== src/Compound/Conditions.antt =====
-- The condition of a step. Python's comparisons are written out on the values of JSON; `repr`, for the
-- reasons, is a parameter.
use enterprise_ai_sales_orch.Prelude.{
  String, ltb, ◌==◌, ◌≡◌, ◌++◌, Bool, true, false, ◌||◌, not, Option, none, some, [], ◌∷◌, refl,
  arith, if◌then◌else◌,
}
use enterprise_ai_sales_orch.Prelude.Int.{ltb_ℤ}
use enterprise_ai_sales_orch.Prelude.Text.{Text, codes, text_eq, starts_with, occurs}
use enterprise_ai_sales_orch.Persistence.Value.{
  Value, null, flag, number, text, arr, obj, Items, nil, item, Fields, has_key, value_eq, is_null,
  as_number,
}
use enterprise_ai_sales_orch.Compound.References.{
  Resolved, resolved, unresolved, ref_prefix, resolve_value,
}

pub record ConditionalCheck : Type 0 where
  pub field : Text
  pub operator : Text
  pub value : Value

-- `s < t`, on texts
unfoldable pub text_less : Text → Text → Bool
text_less s [] = false
text_less [] (b ∷ t) = true
text_less (a ∷ s) (b ∷ t) = if a == b then text_less s t else ltb a b

-- `v < w`; none is the `TypeError` of values that are not compared
unfoldable mutual
  unfolding as_number text_less value_eq

  pub less_than : Value → Value → Option Bool
  less_than null w = none
  less_than (flag b) w = elim (as_number (flag b)) [
    | none ↦ none
    | some m ↦ elim (as_number w) [ none ↦ none | some n ↦ some (ltb_ℤ m n) ]
  ]
  less_than (number m) w = elim (as_number w) [ none ↦ none | some n ↦ some (ltb_ℤ m n) ]
  less_than (text s) w = elim w [ text t ↦ some (text_less s t) | _ ↦ none ]
  less_than (arr vs) w = elim w [ arr ws ↦ items_less vs ws | _ ↦ none ]
  less_than (obj d) w = none

  pub items_less : Items → Items → Option Bool
  items_less nil ws = elim ws [ nil ↦ some false | item w ws' ↦ some true ]
  items_less (item v vs) ws = elim ws [
    | nil ↦ some false
    | item w ws' ↦ elim (value_eq v w) [ true ↦ items_less vs ws' | false ↦ less_than v w ]
  ]

unfoldable pub any_item : Value → Items → Bool
unfolding value_eq
any_item v nil = false
any_item v (item w ws) = value_eq w v || any_item v ws

-- `key in d`, where a list or a dictionary has no hash
unfoldable pub key_in : Value → Fields → Option Bool
unfolding has_key
key_in (text k) d = some (has_key k d)
key_in (arr vs) d = none
key_in (obj e) d = none
key_in v d = some false

-- `v in w`
unfoldable pub is_in : Value → Value → Option Bool
unfolding any_item key_in
is_in v (arr ws) = some (any_item v ws)
is_in v (obj d) = key_in v d
is_in v (text t) = elim v [ text s ↦ some (occurs s t) | _ ↦ none ]
is_in v w = none

abbrev pub map_option : {A B : Type 0} → (A → B) → Option A → Option B
map_option f none = none
map_option f (some a) = some (f a)

-- whether a condition holds, and the reason if it does not
abbrev pub told : Text → Bool → Bool × Text
told reason b = (b, if b then [] else reason)

module _ (repr : Value → Text) where
  unfoldable pub compared : Text → Value → Value → Option (Bool × Text)
  unfolding less_than is_in value_eq
  compared op v w =
      let shown : String → Text = λ sign. repr v ++ codes sign ++ repr w in
      if text_eq op (codes "exists")
      then some (told (codes "Field missing") (not (is_null v)))
      else if text_eq op (codes "not_exists")
      then some (told (codes "Field present") (is_null v))
      else if text_eq op (codes "equals")
      then some (told (shown " != ") (value_eq v w))
      else if text_eq op (codes "not_equals")
      then some (told (shown " == ") (not (value_eq v w)))
      else if text_eq op (codes "gt")
      then map_option (told (shown " <= ")) (less_than w v)
      else if text_eq op (codes "gte")
      then map_option (λ less. told (shown " < ") (not less)) (less_than v w)
      else if text_eq op (codes "lt")
      then map_option (told (shown " >= ")) (less_than v w)
      else if text_eq op (codes "lte")
      then map_option (λ less. told (shown " > ") (not less)) (less_than w v)
      else if text_eq op (codes "in")
      then map_option (told (shown " not in ")) (is_in v w)
      else if text_eq op (codes "not_in")
      then map_option (λ there. told (shown " in ") (not there)) (is_in v w)
      else some (false, codes "Unknown operator: " ++ op)

  unfoldable pub field_value : ConditionalCheck → Fields → Resolved Value
  unfolding resolve_value
  field_value condition outputs =
      if starts_with ref_prefix condition.field
      then resolve_value (text condition.field) outputs
      else resolved (text condition.field)

  -- none is the `TypeError` of a comparison
  unfoldable pub evaluate_condition : ConditionalCheck → Fields → Option (Bool × Text)
  unfolding field_value compared
  evaluate_condition condition outputs = elim (field_value condition outputs) [
    | resolved v ↦ compared condition.operator v condition.value
    | unresolved e ↦
        if text_eq condition.operator (codes "not_exists")
        then some (true, [])
        else some (false, codes "Could not resolve condition field: " ++ e)
  ]

  -- The operators in pairs, each the negation of the other.
  pub data Negates : Text → Text → Type 0 where
    existence : Negates (codes "exists") (codes "not_exists")
    equality : Negates (codes "equals") (codes "not_equals")
    above : Negates (codes "gt") (codes "lte")
    below : Negates (codes "lt") (codes "gte")
    membership : Negates (codes "in") (codes "not_in")

  abbrev pub Opposite : Option (Bool × Text) → Option (Bool × Text) → Type 0
  Opposite none none = Unit
  Opposite (some a) (some b) = a.0 ≡ not b.0
  Opposite _ _ = ⊥

  option-Opposite :
      (o : Option Bool) (r q : Text)
      → Opposite (map_option (told r) o) (map_option (λ b. told q (not b)) o)
  option-Opposite none r q = tt
  option-Opposite (some true) r q = refl
  option-Opposite (some false) r q = refl

  compared-Opposite :
      (op op' : Text) (v w : Value) → Negates op op' → Opposite (compared op v w) (compared op' v w)
  unfolding compared
  compared-Opposite _ _ v w existence = ground arith
  compared-Opposite _ _ v w equality = ground arith
  compared-Opposite _ _ v w above = option-Opposite (less_than w v) _ _
  compared-Opposite _ _ v w below = option-Opposite (less_than v w) _ _
  compared-Opposite _ _ v w membership = option-Opposite (is_in v w) _ _

  evaluate_condition-compared :
      (condition : ConditionalCheck) (outputs : Fields) (v : Value)
      → field_value condition outputs ≡ resolved v
      → evaluate_condition condition outputs ≡ compared condition.operator v condition.value
  unfolding evaluate_condition
  evaluate_condition-compared condition outputs v h = rw h

  -- On a field that is resolved, two operators that negate one another both raise, or exactly one of the
  -- two conditions holds.
  pub evaluate_condition-Opposite :
      (condition : ConditionalCheck) (outputs : Fields) (v : Value) (op : Text)
      → Negates condition.operator op
      → field_value condition outputs ≡ resolved v
      → Opposite
          (evaluate_condition condition outputs)
          (evaluate_condition (record condition { operator = op }) outputs)
  unfolding field_value
  evaluate_condition-Opposite condition outputs v op negates h =
      let other : ConditionalCheck = record condition { operator = op } in
      rw
        (
          evaluate_condition-compared condition outputs v h,
          evaluate_condition-compared other outputs v h,
        )
        (compared-Opposite condition.operator op v condition.value negates)
