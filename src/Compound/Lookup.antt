-- ===== src/Compound/Lookup.antt =====
-- What a reference is resolved to.
use enterprise_ai_sales_orch.Prelude.{
  ℕ, ◌==◌, ◌≡◌, ◌++◌, Bool, true, false, some, [], ◌∷◌, refl, ap, ◌∙◌, arith, All,
}
use enterprise_ai_sales_orch.Prelude.Text.{Text}
use enterprise_ai_sales_orch.Persistence.Value.{obj, Value, text, Fields, find}
use enterprise_ai_sales_orch.Persistence.Memory.{split}
use enterprise_ai_sales_orch.Compound.References.{
  from_output, from_groups, resolved, is_word, is_path, leading, behind_leading, starts_initial,
  ref_prefix, match_reference, segment, follow, resolve_reference, resolve_value,
}

-- A name: of letters, digits and underscores, and with no digit first.
pub record IsName (s : Text) : Type 0 where
  pub initial : starts_initial s ≡ true
  pub words : All (λ c. is_word c ≡ true) s

-- what stands behind a reference: nothing, or what its pattern does not take
abbrev pub IsOutside : Text → Type 0
IsOutside [] = Unit
IsOutside (c ∷ s) = is_path c ≡ false

leading-append :
    (p : ℕ → Bool) (s : Text) (c : ℕ) (rest : Text)
    → All (λ c. p c ≡ true) s
    → p c ≡ false
    → (leading p (s ++ (c ∷ rest)) ≡ s) × (behind_leading p (s ++ (c ∷ rest)) ≡ c ∷ rest)
unfolding leading behind_leading
leading-append p [] c rest h stop = (rw stop, rw stop)
leading-append p (d ∷ s) c rest (is, h) stop =
    let (front, back) = leading-append p s c rest h stop in
    (rw (is, front) refl, rw (is, back) refl)

leading-outside :
    (s rest : Text)
    → All (λ c. is_word c ≡ true) s
    → IsOutside rest
    → leading is_path (s ++ rest) ≡ s
unfolding leading
leading-outside [] [] h stop = refl
leading-outside [] (c ∷ rest) h stop = rw stop refl
leading-outside (d ∷ s) rest (is, h) stop = rw (is, leading-outside s rest h stop) refl

split-one : (s : Text) → All (λ c. is_word c ≡ true) s → split b'.' s ≡ s ∷ []
unfolding split
split-one [] h = refl
split-one (c ∷ s) (is, h) =
    let apart : (b'.' == c) ≡ false = ground (arith, is) in rw (apart, split-one s h) refl

resolve_reference-segment :
    (value name field : Text) (outputs output : Fields)
    → match_reference value ≡ some (name, field)
    → find name outputs ≡ some (obj output)
    → split b'.' field ≡ field ∷ []
    → resolve_reference value outputs ≡ follow name value (field ∷ []) (obj output)
unfolding resolve_reference
resolve_reference-segment value name field outputs output h there one =
    ap (from_groups value outputs) h
    ∙ ap (from_output value (name, field)) there
    ∙ ap (λ parts. follow name value parts (obj output)) one

module _ (name field rest : Text) (is_name : IsName name) (is_field : IsName field)
    (outside : IsOutside rest) where
  abbrev reference : Text
  reference = ref_prefix ++ (name ++ (b'.' ∷ (field ++ rest)))

  starts_initial-append : (s t : Text) → starts_initial s ≡ true → starts_initial (s ++ t) ≡ true
  starts_initial-append [] t h = cc
  starts_initial-append (c ∷ s) t h = h

  match_reference_lem : match_reference reference ≡ some (name, field)
  unfolding match_reference
  match_reference_lem =
      let (front, back) = leading-append is_word name b'.' (field ++ rest) is_name.words refl in
      rw
        (
          starts_initial-append name (b'.' ∷ (field ++ rest)) is_name.initial,
          front,
          back,
          starts_initial-append field rest is_field.initial,
          leading-outside field rest is_field.words outside,
        )
        refl

  -- A reference to a step and a field, by names with no digit first, is resolved to that field of the
  -- step's output, if there are such an output and such a field; whatever stands behind the reference, from a character on that no
  -- path has, is ignored.
  pub resolve_value-find :
      (outputs output : Fields) (v : Value)
      → find name outputs ≡ some (obj output)
      → find field output ≡ some v
      → resolve_value (text reference) outputs ≡ resolved v
  unfolding resolve_value follow segment
  resolve_value-find outputs output v there here =
      resolve_reference-segment reference name field outputs output match_reference_lem there
        (split-one field is_field.words)
      ∙ rw here refl
