-- ===== src/Compound/References.antt =====
-- The references of a step to the outputs of the steps before it. Texts are lists of code points; the names
-- in a reference are of ASCII letters, digits and the underscore.
use enterprise_ai_sales_orch.Prelude.{
  ℕ, ◌-◌, leb, ◌==◌, ◌++◌, Bool, false, ◌&&◌, ◌||◌, Option, none, some, List, [], ◌∷◌, drop,
  if◌then◌else◌,
}
use enterprise_ai_sales_orch.Prelude.Text.{Text, codes, starts_with, decimal}
use enterprise_ai_sales_orch.Prelude.Number.{is_digit, read_ℕ}
use enterprise_ai_sales_orch.Persistence.Value.{
  Value, null, flag, number, text, arr, obj, Items, nil, item, Fields, end, entry, find,
}
use enterprise_ai_sales_orch.Persistence.Memory.{split}

-- What is resolved, or the message of a `ValueError`.
pub data Resolved (A : Type 0) : Type 0 where
  resolved : A → Resolved A
  unresolved : Text → Resolved A

abbrev pub then_resolve : {A B : Type 0} → Resolved A → (A → Resolved B) → Resolved B
then_resolve (resolved a) f = f a
then_resolve (unresolved e) f = unresolved e

-- `[a-zA-Z_]`
abbrev pub is_initial : ℕ → Bool
is_initial c = (leb b'a' c && leb c b'z') || (leb b'A' c && leb c b'Z') || (c == b'_')

-- `[a-zA-Z0-9_]`
abbrev pub is_word : ℕ → Bool
is_word c = is_initial c || is_digit c

-- `[a-zA-Z0-9_.]`
abbrev pub is_path : ℕ → Bool
is_path c = is_word c || (c == b'.')

unfoldable pub leading : (ℕ → Bool) → Text → Text
leading p [] = []
leading p (c ∷ s) = let more = leading p s in if p c then c ∷ more else []

unfoldable pub behind_leading : (ℕ → Bool) → Text → Text
behind_leading p [] = []
behind_leading p (c ∷ s) = let more = behind_leading p s in if p c then more else c ∷ s

abbrev pub starts_initial : Text → Bool
starts_initial [] = false
starts_initial (c ∷ s) = is_initial c

-- the second group and what stands before it, from behind the first
abbrev pub match_path : Text → Text → Option (Text × Text)
match_path name [] = none
match_path name (c ∷ s) =
    if (c == b'.') && starts_initial s then some (name, leading is_path s) else none

abbrev pub ref_prefix : Text
ref_prefix = codes "$ref:"

-- `REF_PATTERN.match(value)`, its two groups, of a value that starts with `$ref:`
unfoldable pub match_reference : Text → Option (Text × Text)
unfolding leading behind_leading
match_reference value =
    let s = drop 5 value in
    if starts_initial s then match_path (leading is_word s) (behind_leading is_word s) else none

-- `part.isdigit()`, on ASCII, with `int(part)`
unfoldable pub index_of : Text → Option ℕ
unfolding read_ℕ
index_of part = read_ℕ part

unfoldable pub item_at : ℕ → Items → Option Value
item_at n nil = none
item_at n (item v vs) = if n == 0 then some v else item_at (n - 1) vs

abbrev pub quoted : Text → Text
quoted t = codes "'" ++ t ++ codes "'"

abbrev field_missing : Text → Text → Text
field_missing part step_name =
    codes "Field "
    ++ quoted part
    ++ codes " not found in step "
    ++ quoted step_name
    ++ codes " output"

abbrev out_of_range : ℕ → Text → Text
out_of_range n step_name =
    codes "Index " ++ decimal n ++ codes " out of range for list in step " ++ quoted step_name

abbrev no_segment : Text → Text → Text
no_segment part value =
    codes "Cannot resolve path segment " ++ quoted part ++ codes " in reference " ++ value

abbrev or_unresolved : Option Value → Text → Resolved Value
or_unresolved none e = unresolved e
or_unresolved (some v) e = resolved v

-- one round of the loop over the parts of the path
unfoldable pub segment : Text → Text → Text → Value → Resolved Value
unfolding find index_of item_at
segment step_name value part (obj d) = or_unresolved (find part d) (field_missing part step_name)
segment step_name value part (arr vs) = elim (index_of part) [
  | none ↦ unresolved (no_segment part value)
  | some n ↦ or_unresolved (item_at n vs) (out_of_range n step_name)
]
segment step_name value part current = unresolved (no_segment part value)

unfoldable pub follow : Text → Text → List Text → Value → Resolved Value
unfolding segment
follow step_name value [] current = resolved current
follow step_name value (part ∷ parts) current =
    then_resolve (segment step_name value part current) (follow step_name value parts)

abbrev pub from_output : Text → Text × Text → Option Value → Resolved Value
from_output value groups none = unresolved (codes "Reference to unknown step " ++ quoted groups.0)
from_output value groups (some output) = follow groups.0 value (split b'.' groups.1) output

abbrev pub from_groups : Text → Fields → Option (Text × Text) → Resolved Value
from_groups value outputs none = unresolved (codes "Invalid reference format: " ++ value)
from_groups value outputs (some groups) = from_output value groups (find groups.0 outputs)

-- `resolve_value` behind its first test
unfoldable pub resolve_reference : Text → Fields → Resolved Value
unfolding match_reference find follow split
resolve_reference value outputs = from_groups value outputs (match_reference value)

unfoldable pub resolve_value : Value → Fields → Resolved Value
unfolding resolve_reference
resolve_value (text value) outputs =
    if starts_with ref_prefix value then resolve_reference value outputs else resolved (text value)
resolve_value v outputs = resolved v

unfoldable mutual
  unfolding resolve_value

  pub resolve_references : Value → Fields → Resolved Value
  resolve_references null outputs = resolved null
  resolve_references (flag b) outputs = resolved (flag b)
  resolve_references (number n) outputs = resolved (number n)
  resolve_references (text t) outputs = resolve_value (text t) outputs
  resolve_references (arr vs) outputs =
      then_resolve (resolve_items vs outputs) (λ ws. resolved (arr ws))
  resolve_references (obj d) outputs =
      then_resolve (resolve_fields d outputs) (λ e. resolved (obj e))

  pub resolve_items : Items → Fields → Resolved Items
  resolve_items nil outputs = resolved nil
  resolve_items (item v vs) outputs =
      then_resolve (resolve_references v outputs)
        (λ w. then_resolve (resolve_items vs outputs) (λ ws. resolved (item w ws)))

  pub resolve_fields : Fields → Fields → Resolved Fields
  resolve_fields end outputs = resolved end
  resolve_fields (entry k v d) outputs =
      then_resolve (resolve_references v outputs)
        (λ w. then_resolve (resolve_fields d outputs) (λ e. resolved (entry k w e)))
