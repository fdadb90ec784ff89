-- ===== src/Routing/Tests.antt =====
-- Plans by the default routing, with a tenant's file that cannot be read.
use enterprise_ai_sales_orch.Prelude.{
  append_assoc, sym, ◌∙◌, arith, inr, inl, Bool-cases, ap, ℕ, ◌≡◌, ◌++◌, true, Option, none, some,
  [], ◌∷◌, refl,
}
use enterprise_ai_sales_orch.Prelude.Text.{Text, codes, text_eq, text_eq-eq}
use enterprise_ai_sales_orch.Persistence.Value.{Value, obj, Fields, end, entry, has_key}
use enterprise_ai_sales_orch.Routing.{
  Configuration, missing, unreadable, UnifiedManagerRequest, deep, build_plan,
  determine_context_depth,
}
use enterprise_ai_sales_orch.Routing.Plan.{IsPlan, build_plan-IsPlan}
use enterprise_ai_sales_orch.Routing.Depth.{DumpsKeys, determine_context_depth-context}

abbrev certainty : ℕ
certainty = 90

abbrev defaults : Configuration
defaults = record {
  env_file = missing;
  tenant_file = λ t. unreadable;
  default_file = missing;
  env_fallback = [];
}

shown : Value → Text
shown v = []

-- the names of the keys, each with a space behind it
keys_text : Fields → Text
keys_text end = codes "}"
keys_text (entry k v d) = k ++ (32 ∷ keys_text d)

abbrev dumped : Fields → Option Text
dumped d = some (keys_text d)

abbrev request : UnifiedManagerRequest
request = record {
  tenant_id = some (codes "acme");
  source = codes "api";
  subject = some (codes "Hello");
  body = none;
  payload = obj (entry (codes "context") (obj end) end);
}

build_plan-IsPlan_example : IsPlan shown dumped defaults request (
    build_plan shown dumped defaults (codes "start_campaign") certainty (codes "rule" ∷ []) request)
build_plan-IsPlan_example =
    build_plan-IsPlan shown dumped defaults (codes "start_campaign") certainty (codes "rule" ∷ [])
      request

keys_text-keyed :
    (key : Text) (d : Fields)
    → has_key key d ≡ true
    → (before : Text) × (behind : Text) × (keys_text d ≡ before ++ (key ++ behind))
unfolding has_key keys_text
keys_text-keyed key end h = absurd cc
keys_text-keyed key (entry k v d) h = elim (Bool-cases (text_eq k key)) [
  | inl same ↦
      let is : k ≡ key = text_eq-eq k key same in
      ([], 32 ∷ keys_text d, ap (λ t. t ++ (32 ∷ keys_text d)) is)
  | inr other ↦
      let (before, behind, is) = keys_text-keyed key d (ground (arith, h, other)) in
      (
        k ++ (32 ∷ before),
        behind,
        ap (λ t. k ++ (32 ∷ t)) is ∙ sym (append_assoc k (32 ∷ before) (key ++ behind)),
      )
]

text_once : {a b c : Text} → some a ≡ some b → a ≡ c → b ≡ c
text_once h k = cc

dumped_laws : DumpsKeys dumped (codes "context")
dumped_laws = record {
  keyed = λ d json there is.
      let (before, behind, parts) = keys_text-keyed (codes "context") d there in
      (before, behind, text_once is parts);
}

determine_context_depth-context_example : determine_context_depth shown dumped request ≡ deep
unfolding has_key keys_text
determine_context_depth-context_example =
    determine_context_depth-context shown dumped request (entry (codes "context") (obj end) end)
      (keys_text (entry (codes "context") (obj end) end)) dumped_laws refl refl refl
