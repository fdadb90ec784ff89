-- ===== src/Compound/Data.antt =====
-- What compound operations are made of, and the parts of `execute_step` that call nothing. A sleep is counted
-- in halves of a second; the identifier of the transaction is left out.
use enterprise_ai_sales_orch.Prelude.{
  ℕ, ◌+◌, Bool, ◌||◌, Option, none, some, List, [], ◌∷◌, keep, if◌then◌else◌,
}
use enterprise_ai_sales_orch.Prelude.Text.{Text, codes, occurs, listed}
use enterprise_ai_sales_orch.Effects.{Action}
use enterprise_ai_sales_orch.Persistence.Value.{
  Value, null, flag, number, text, arr, obj, Items, nil, item, Fields, end, entry, get, set,
  is_true,
}
use enterprise_ai_sales_orch.Compound.Conditions.{ConditionalCheck}

pub data StepOperation : Type 0 where
  create : StepOperation
  update : StepOperation
  upsert : StepOperation
  delete : StepOperation

-- `data` is null, a dictionary or a list
pub record TableStep : Type 0 where
  pub step_name : Text
  pub table : Text
  pub operation : StepOperation
  pub payload : Value
  pub where_clause : Option Fields
  pub match_on : Option (List Text)
  pub condition : Option ConditionalCheck
  pub on_error : Text

pub record CompoundPayload : Type 0 where
  pub steps : List TableStep
  pub rollback_on_failure : Bool
  pub continue_on_skip : Bool

pub data Status : Type 0 where
  success : Status
  skipped : Status
  failed : Status

-- what a result is the result of: its step's operation, or a rollback
pub data Performed : Type 0 where
  performed : StepOperation → Performed
  rollback : Performed

pub record StepResult : Type 0 where
  pub step_name : Text
  pub table : Text
  pub operation : Performed
  pub status : Status
  pub records_affected : ℕ
  pub output : Value
  pub error : Option Text
  pub skipped_reason : Option Text

pub record CompoundResult : Type 0 where
  pub success : Bool
  pub total_steps : ℕ
  pub completed_steps : ℕ
  pub skipped_steps : ℕ
  pub failed_step : Option Text
  pub error : Option Text
  pub step_results : List StepResult
  pub outputs : Fields
  pub rollback_performed : Bool
  pub rollback_results : List StepResult

-- The methods of the adapter that the steps call, and `time.sleep`. An error is the text of its exception.
pub record Adapter (W : Type 0) : Type 0 where
  pub write : Text → Value → Action W Value
  pub batch_write : Text → Items → Action W Items
  pub upsert : Text → Value → List Text → Action W Value
  pub query : Text → Fields → ℕ → Action W Value
  pub delete : Text → Value → Action W Value
  pub get_columns : Text → Action W (Option (List Text))
  pub sleep : ℕ → W → W

-- `data or {}`
unfoldable pub or_dict : Value → Value
or_dict v = if is_true v then v else obj end

unfoldable pub count_items : Items → ℕ
count_items nil = 0
count_items (item v vs) = count_items vs + 1

abbrev pub one_if : Value → ℕ
one_if v = if is_true v then 1 else 0

-- `_is_transient_error(exc)`
unfoldable pub is_transient_error : Text → Bool
is_transient_error e =
    occurs (codes "42P10") e || occurs (codes "PGRST301") e || occurs (codes "PGRST302") e

-- `[c for c in columns if c in known]`, and the entries of a dictionary with a known key
unfoldable pub known_fields : List Text → Fields → Fields
known_fields known end = end
known_fields known (entry k v d) =
    if listed k known then entry k v (known_fields known d) else known_fields known d

-- `_filter_known_columns` with columns
unfoldable mutual
  unfolding known_fields

  pub known_only : List Text → Value → Value
  known_only known null = null
  known_only known (flag b) = flag b
  known_only known (number n) = number n
  known_only known (text t) = text t
  known_only known (arr vs) = arr (known_items known vs)
  known_only known (obj d) = obj (known_fields known d)

  pub known_items : List Text → Items → Items
  known_items known nil = nil
  known_items known (item v vs) = item (known_only known v) (known_items known vs)

unfoldable pub filter_known_columns : Value → Option (List Text) → Value
unfolding known_only
filter_known_columns v none = v
filter_known_columns v (some []) = v
filter_known_columns v (some (c ∷ known)) = known_only (c ∷ known) v

abbrev or_columns : List Text → List Text → List Text
or_columns [] cs = cs
or_columns (b ∷ bs) cs = b ∷ bs

unfoldable pub normalized_on_conflict : List Text → Option (List Text) → List Text
normalized_on_conflict [] known = []
normalized_on_conflict (c ∷ cs) none = c ∷ cs
normalized_on_conflict (c ∷ cs) (some []) = c ∷ cs
normalized_on_conflict (c ∷ cs) (some (k ∷ ks)) =
    or_columns (keep (λ column. listed column (k ∷ ks)) (c ∷ cs))
      (if listed (codes "id") (k ∷ ks) then codes "id" ∷ [] else c ∷ cs)

-- `_normalize_result(result)`
unfoldable pub normalize_result : Value → Value
normalize_result (arr (item (obj d) vs)) = obj d
normalize_result v = v

-- the elements that a `for` loop visits; none where it raises a `TypeError`
unfoldable pub elements : Value → Option Items
elements (arr vs) = some vs
elements (text t) = some (characters t)
  where
    characters : Text → Items
    characters [] = nil
    characters (c ∷ s) = item (text (c ∷ [])) (characters s)
elements (obj d) = some (names d)
  where
    names : Fields → Items
    names end = nil
    names (entry k v e) = item (text k) (names e)
elements v = none

-- `m.get("id")`; none is the `AttributeError` of what is no dictionary
unfoldable pub id_of : Value → Option Value
unfolding get
id_of (obj d) = some (get (codes "id") d)
id_of v = none

-- `payload if isinstance(payload, dict) else {}` of `data or {}`, with an id
unfoldable pub with_id : Value → Value → Value
unfolding set
with_id (obj d) v = obj (set (codes "id") v d)
with_id _ v = obj (entry (codes "id") v end)

abbrev pub id_column : List Text
id_column = codes "id" ∷ []
