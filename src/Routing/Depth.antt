-- ===== src/Routing/Depth.antt =====
-- The depth of the context that a request needs.
use enterprise_ai_sales_orch.Prelude.{
  ◌≡◌, ◌++◌, Bool, true, false, Option, some, [], ◌∷◌, refl, ap, ◌∙◌, arith, if◌then◌else◌,
}
use enterprise_ai_sales_orch.Prelude.Text.{
  starts_with-append, Text, codes, truthy, lower, occurs, or_empty,
}
use enterprise_ai_sales_orch.Persistence.Value.{
  get, Value, obj, Fields, end, entry, has_key, is_true,
}
use enterprise_ai_sales_orch.Routing.{
  context_of, as_items, has_reply, blobs_with, depth_of, as_dict, UnifiedManagerRequest, deep,
  mentions, is_filled_dict, text_blobs, determine_context_depth,
}

-- What `json.dumps` does: the text of a dictionary has the names of its keys, where they are plain words.
pub record DumpsKeys (dumps : Fields → Option Text) (key : Text) : Type 0 where
  pub keyed :
      (d : Fields) (json : Text)
      → has_key key d ≡ true
      → dumps d ≡ some json
      → (before : Text) × (behind : Text) × (json ≡ before ++ (key ++ behind))

lower-append : (s t : Text) → lower (s ++ t) ≡ lower s ++ lower t
lower-append [] t = refl
lower-append (c ∷ s) t = ap (λ u. lower (c ∷ []) ++ u) (lower-append s t)

occurs-later : (p a t : Text) → occurs p t ≡ true → occurs p (a ++ t) ≡ true
occurs-later p [] t h = h
occurs-later p (d ∷ a) t h = ground (arith, occurs-later p a t h)

occurs-append : (p b : Text) → truthy p ≡ true → occurs p (p ++ b) ≡ true
occurs-append [] b h = absurd cc
occurs-append (c ∷ p) b h = ground (arith, starts_with-append p b)

occurs-lower : (p a t : Text) → occurs p (lower t) ≡ true → occurs p (lower (a ++ t)) ≡ true
occurs-lower p a t h = rw (lower-append a t) (occurs-later p (lower a) (lower t) h)

abbrev context : Text
context = codes "context"

blobs-mention :
    (subject body json before behind : Text)
    → json ≡ before ++ (context ++ behind)
    → occurs context (lower (subject ++ (32 ∷ (body ++ (32 ∷ json))))) ≡ true
blobs-mention subject body json before behind is =
    let within : occurs context (lower (context ++ behind)) ≡ true =
      occurs-append context (lower behind) refl in
    let in_json : occurs context (lower json) ≡ true =
      rw is (occurs-lower context before (context ++ behind) within) in
    let in_body =
      occurs-lower context body (32 ∷ json) (occurs-later context (32 ∷ []) (lower json) in_json) in
    occurs-lower context subject (32 ∷ (body ++ (32 ∷ json)))
      (occurs-later context (32 ∷ []) (lower (body ++ (32 ∷ json))) in_body)

mentions-context : (blobs : Text) → occurs context blobs ≡ true → mentions blobs ≡ true
mentions-context blobs h = ground (arith, h)

filled_lem : (d : Fields) → has_key context d ≡ true → is_true (obj d) ≡ true
unfolding has_key is_true
filled_lem end h = absurd cc
filled_lem (entry k v d) h = refl

depth-found :
    (str : Value → Text) (dumps : Fields → Option Text) (reply email : Bool) (blobs : Text)
    → mentions blobs ≡ true
    → depth_of str dumps reply email (some blobs) ≡ deep
depth-found str dumps true email blobs h = refl
depth-found str dumps false true blobs h = refl
depth-found str dumps false false blobs h = rw h refl

-- Where JSON writes the names of the keys: a request whose payload has the key `context`, whatever it holds, is
-- deep, as the word is found in the text of the payload, unless JSON raises.
pub determine_context_depth-context :
    (str : Value → Text) (dumps : Fields → Option Text) (req : UnifiedManagerRequest)
    (payload : Fields) (json : Text)
    → DumpsKeys dumps (codes "context")
    → req.payload ≡ obj payload
    → has_key (codes "context") payload ≡ true
    → dumps payload ≡ some json
    → determine_context_depth str dumps req ≡ deep
unfolding determine_context_depth text_blobs
determine_context_depth-context str dumps req payload json laws is there dumped =
    let same : as_dict req.payload ≡ payload = ap as_dict is in
    let filled : is_true (obj payload) ≡ true = filled_lem payload there in
    let blobs : text_blobs str dumps req payload ≡ blobs_with req (some json) =
      ap (λ b. blobs_with req (if b then dumps payload else some [])) filled
      ∙ ap (blobs_with req) dumped in
    let (before, behind, parts) = laws.keyed payload json there dumped in
    let found =
      mentions-context (lower (or_empty req.subject ++ (32 ∷ (or_empty req.body ++ (32 ∷ json)))))
        (blobs-mention (or_empty req.subject) (or_empty req.body) json before behind parts) in
    let reply =
      has_reply str dumps
        (as_items (get (codes "actions_allowed") (context_of str dumps req.payload))) in
    let email = is_filled_dict (get (codes "email_event") (context_of str dumps req.payload)) in
    ap (λ d. depth_of str dumps reply email (text_blobs str dumps req d)) same
    ∙ ap (depth_of str dumps reply email) blobs
    ∙ depth-found str dumps reply email
        (lower (or_empty req.subject ++ (32 ∷ (or_empty req.body ++ (32 ∷ json))))) found
