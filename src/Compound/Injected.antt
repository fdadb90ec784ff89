-- ===== src/Compound/Injected.antt =====
-- An inbound email whose text reads as a reference.
use enterprise_ai_sales_orch.Prelude.{◌≡◌, ◌++◌, Bool, true, none, [], refl, ap, ◌∙◌, if◌then◌else◌}
use enterprise_ai_sales_orch.Prelude.Text.{Text, codes, starts_with}
use enterprise_ai_sales_orch.Effects.{returned, ◌>>=◌, bind_raised}
use enterprise_ai_sales_orch.Persistence.Value.{Value, text, obj, Fields, end, entry, get}
use enterprise_ai_sales_orch.Compound.References.{
  resolved, unresolved, ref_prefix, match_reference, from_groups, resolve_reference, resolve_value,
  resolve_references,
}
use enterprise_ai_sales_orch.Compound.Data.{Adapter}
use enterprise_ai_sales_orch.Compound.Execution.{
  operate, columns_of, resolve_where, lift, attempt_step, execute_step, failed_with, concluded,
}
use enterprise_ai_sales_orch.Compound.Builders.{get_or, message_of}

abbrev invalid : Text → Text
invalid t = codes "Invalid reference format: " ++ t

resolve_value-invalid :
    (t : Text) (outputs : Fields)
    → starts_with ref_prefix t ≡ true
    → match_reference t ≡ none
    → resolve_value (text t) outputs ≡ unresolved (invalid t)
unfolding resolve_value resolve_reference
resolve_value-invalid t outputs starts no_match =
    ap (λ b. if b then resolve_reference t outputs else resolved (text t)) starts
    ∙ ap (from_groups t outputs) no_match

resolve_fields-third :
    (j k : Text) (u v w x : Value) (i : Text) (d outputs : Fields) (e : Text)
    → resolve_references u outputs ≡ resolved v
    → resolve_references w outputs ≡ resolved w
    → resolve_references x outputs ≡ unresolved e
    → resolve_references (obj (entry i u (entry j w (entry k x d)))) outputs ≡ unresolved e
unfolding resolve_references
resolve_fields-third j k u v w x i d outputs e first second third = rw (first, second, third) refl

message_of-unresolved :
    (email_event outputs : Fields) (t : Text) (v : Value)
    → resolve_value (text (codes "$ref:conversation.id")) outputs ≡ resolved v
    → get_or (codes "body") (text []) email_event ≡ text t
    → starts_with ref_prefix t ≡ true
    → match_reference t ≡ none
    → resolve_references (message_of email_event).payload outputs ≡ unresolved (invalid t)
unfolding message_of resolve_references
message_of-unresolved email_event outputs t v stored body starts no_match =
    resolve_fields-third (codes "direction") (codes "content") (text (codes "$ref:conversation.id"))
      v (text (codes "inbound")) (get_or (codes "body") (text []) email_event)
      (codes "conversation_id")
      (entry (codes "message_id") (get (codes "message_id") email_event)
        (entry (codes "metadata") (get_or (codes "metadata") (obj end) email_event) end))
      outputs (invalid t) stored refl
      (ap (λ x. resolve_references x outputs) body
        ∙ resolve_value-invalid t outputs starts no_match)

module _ {W : Type 0} (adapter : Adapter W) (repr : Value → Text) (filtering : Bool) where
  -- Where the conversation of an inbound email is stored with an id: if the body of the email starts with
  -- `$ref:` and is no reference of the pattern, the step that is to store the message fails, whatever the
  -- adapter, and does not call it.
  pub message_of-failed :
      (email_event outputs : Fields) (t : Text) (v : Value) (w : W)
      → resolve_value (text (codes "$ref:conversation.id")) outputs ≡ resolved v
      → get_or (codes "body") (text []) email_event ≡ text t
      → starts_with ref_prefix t ≡ true
      → match_reference t ≡ none
      → execute_step adapter repr filtering (message_of email_event) outputs w
        ≡ (returned (failed_with adapter repr filtering (message_of email_event) (invalid t)), w)
  unfolding execute_step attempt_step message_of
  message_of-failed email_event outputs t v w stored body starts no_match =
      let unread = message_of-unresolved email_event outputs t v stored body starts no_match in
      let step = message_of email_event in
      let data_lem = ap (λ r. lift {W = W} r w) unread in
      ap (concluded adapter repr filtering step) (
        bind_raised (lift (resolve_references step.payload outputs)) w
          (λ resolved_data.
            lift (resolve_where adapter step.where_clause outputs) >>= λ resolved_where.
            columns_of adapter repr filtering step.table >>= λ known.
            operate adapter step resolved_data resolved_where known)
          (invalid t) w data_lem)
