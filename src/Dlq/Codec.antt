-- ===== src/Dlq/Codec.antt =====
-- A dead letter is read back from the fields that it is written to.
use enterprise_ai_sales_orch.Prelude.Number.{int_of-str_of}
use enterprise_ai_sales_orch.Prelude.{◌≡◌, refl, Option, none, some, arith}
use enterprise_ai_sales_orch.Dlq.{
  or_empty, parsed, or_none, some, field, Text, to_fields, Option, Json, DeadLetterMessage, Fields,
  to_dict, from_dict,
}

-- The documented behaviour of `json.dumps` and `json.loads`: a value that is written is read back. And a
-- dictionary of texts has its fields.
pub record CodecLaws {J : Type 0} (json : Json J) : Type 0 where
  pub dict_injective : (f g : Fields) → json.dict f ≡ json.dict g → f ≡ g
  pub loads-dumps : (j : J) (t : Text) → json.dumps j ≡ some t → json.loads t ≡ some j

-- a text, where the empty one stands for none
unfoldable pub filled : Option Text → Option Text
filled none = none
filled (some t) = or_none t

-- a dead letter with `None` for the optional texts that are empty
unfoldable pub cleaned : {J : Type 0} → DeadLetterMessage J → DeadLetterMessage J
unfolding filled
cleaned m = record {
  original_message = m.original_message;
  original_stream = m.original_stream;
  original_message_id = m.original_message_id;
  failure_reason = m.failure_reason;
  failure_count = m.failure_count;
  failed_at = m.failed_at;
  last_error = filled m.last_error;
  error_type = filled m.error_type;
  consumer_name = filled m.consumer_name;
  tenant_id = filled m.tenant_id;
}

or_none_lem : (o : Option Text) → or_none (or_empty o) ≡ filled o
unfolding filled
or_none_lem none = refl
or_none_lem (some t) = refl

module _ {J : Type 0} (json : Json J) (laws : CodecLaws json) where
  pub from_dict-to_fields :
      (m : DeadLetterMessage J) (t : Text)
      → json.dumps m.original_message ≡ some t
      → from_dict json (to_fields json m t) ≡ some (cleaned m)
  unfolding from_dict to_fields field parsed cleaned
  from_dict-to_fields m t e = rw (
    int_of-str_of m.failure_count,
    from_dict,
    parsed,
    laws.loads-dumps m.original_message t e,
    or_none_lem m.last_error,
    or_none_lem m.error_type,
    or_none_lem m.consumer_name,
    or_none_lem m.tenant_id,
  )

  pub from_dict-to_dict :
      (m : DeadLetterMessage J) (d : Fields)
      → to_dict json m ≡ some d
      → from_dict json d ≡ some (cleaned m)
  unfolding to_dict
  from_dict-to_dict m d h = by_text (json.dumps m.original_message) refl
    where
      by_text :
          (o : Option Text)
          → json.dumps m.original_message ≡ o
          → from_dict json d ≡ some (cleaned m)
      by_text none e = ground (arith, e, h)
      by_text (some t) e = ground (arith, e, h, from_dict-to_fields m t e)
