-- ===== src/Envelope.antt =====
-- core/envelope/typed_envelope.py. `P` is the type of payloads and `D` that of the debug entry. The
-- clock and `uuid4` are arguments: each time and each new identifier is passed. What the validation
-- library makes of a dictionary is an argument of `normalize_envelope`.
pub mod Retries
pub mod Context
pub mod Legacy
mod Tests
use enterprise_ai_sales_orch.Prelude.{ℕ, ◌+◌, leb, Option, none, some, List, [], ◌∷◌, if◌then◌else◌}
use enterprise_ai_sales_orch.Prelude.Text.{Text, codes, lower, listed, truthy, or_text, or_empty}

pub data Priority : Type 0 where
  low normal high critical : Priority

pub data Status : Type 0 where
  pending success error retry dlq : Status

pub record Metadata (D : Type 0) : Type 0 where
  pub message_id : Text
  pub task_id : Text
  pub correlation_id : Option Text
  pub source : Text
  pub destination : Option Text
  pub created_at : ℕ
  pub processed_at : Option ℕ
  pub req_id : Option Text
  pub user_id : Option Text
  pub tenant_id : Option Text
  pub campaign_id : Option Text
  pub priority : Priority
  pub retry_count : ℕ
  pub max_retries : ℕ
  pub tags : List (Text × Text)
  pub debug : Option D

-- `Envelope`, without the trace and the warnings, which nothing here reads or sets
pub record Envelope (P D : Type 0) : Type 0 where
  pub metadata : Metadata D
  pub payload : P
  pub status : Status
  pub error_text : Option Text
  pub error_code : Option Text

-- the part of a legacy dictionary that is read: of its metadata, and its own keys; `legacy_payload` and
-- `legacy_debug` are the entries made of the records, the status and the metadata
pub record LegacyEnvelope (P D : Type 0) : Type 0 where
  pub meta_task_id : Option Text
  pub task_id : Option Text
  pub meta_source : Option Text
  pub target : Option Text
  pub correlation_id : Option Text
  pub req_id : Option Text
  pub request_id : Option Text
  pub tenant_id : Option Text
  pub campaign_id : Option Text
  pub status : Option Text
  pub error_text : Option Text
  pub legacy_payload : P
  pub legacy_debug : D

-- What `normalize_envelope` is given: an envelope; a dictionary, with the envelope that validates, if
-- one does, and its legacy reading, if it has the two keys of one; or something else.
pub data Input (P D : Type 0) : Type 0 where
  typed : Envelope P D → Input P D
  dict : Option (Envelope P D) → Option (LegacyEnvelope P D) → Input P D
  unsupported : Input P D

-- the defaults of `Metadata`
abbrev pub metadata : {D : Type 0} → Text → Text → ℕ → Text → Metadata D
metadata message_id task_id created_at source = record {
  message_id = message_id;
  task_id = task_id;
  correlation_id = none;
  source = source;
  destination = none;
  created_at = created_at;
  processed_at = none;
  req_id = none;
  user_id = none;
  tenant_id = none;
  campaign_id = none;
  priority = normal;
  retry_count = 0;
  max_retries = 3;
  tags = [];
  debug = none;
}

only_error : Status → Option Text → Option Text
only_error error t = t
only_error _ t = none

-- `a or b`
either : Option Text → Option Text → Option Text
either (some s) b = if truthy s then some s else b
either none b = b

module _ {P D : Type 0} where
  unfoldable pub mark_processed : ℕ → Envelope P D → Envelope P D
  mark_processed now e = record e {
    metadata = record e.metadata { processed_at = some now };
    status = success;
  }

  unfoldable pub mark_error : ℕ → Text → Option Text → Envelope P D → Envelope P D
  mark_error now message code e = record e {
    metadata = record e.metadata { processed_at = some now };
    status = error;
    error_text = some message;
    error_code = code;
  }

  unfoldable pub increment_retry : Envelope P D → Envelope P D
  increment_retry e =
      let count = e.metadata.retry_count + 1 in
      record e {
        metadata = record e.metadata { retry_count = count };
        status = if leb e.metadata.max_retries count then dlq else retry;
      }

  -- `task`, without further overrides; `fresh` is the new correlation
  unfoldable pub task :
      Text → ℕ → Text → Text → Text → P → Option Text → Priority → Option Text → Envelope P D
  task message_id now fresh source task_id payload destination priority correlation_id = record {
    metadata = record (metadata message_id task_id now source) {
      destination = destination;
      priority = priority;
      correlation_id = some (or_text (or_empty correlation_id) fresh);
    };
    payload = payload;
    status = pending;
    error_text = none;
    error_code = none;
  }

  -- `result`
  unfoldable pub result_of : Text → ℕ → P → Text → Envelope P D → Envelope P D
  result_of message_id now payload source original = record {
    metadata = record (metadata message_id original.metadata.task_id now source) {
      correlation_id = original.metadata.correlation_id;
      req_id = original.metadata.req_id;
      user_id = original.metadata.user_id;
      tenant_id = original.metadata.tenant_id;
      campaign_id = original.metadata.campaign_id;
      tags = original.metadata.tags;
      debug = original.metadata.debug;
    };
    payload = payload;
    status = success;
    error_text = none;
    error_code = none;
  }

  -- `error`
  unfoldable pub error_of : Text → ℕ → Text → Text → Option Text → Envelope P D → Envelope P D
  error_of message_id now message source code original = record {
    metadata = record (metadata message_id original.metadata.task_id now source) {
      correlation_id = original.metadata.correlation_id;
      req_id = original.metadata.req_id;
      user_id = original.metadata.user_id;
      tenant_id = original.metadata.tenant_id;
      campaign_id = original.metadata.campaign_id;
      retry_count = original.metadata.retry_count;
      max_retries = original.metadata.max_retries;
      tags = original.metadata.tags;
      debug = original.metadata.debug;
    };
    payload = original.payload;
    status = error;
    error_text = some message;
    error_code = code;
  }

  -- the status of a legacy dictionary
  unfoldable pub legacy_status : LegacyEnvelope P D → Status
  legacy_status l =
      let status = lower (or_empty l.status) in
      if listed status (codes "error" ∷ codes "failed" ∷ [])
      then error
      else if listed status (codes "retry" ∷ [])
      then retry
      else if listed status (codes "dlq" ∷ [])
      then dlq
      else success

  unfoldable pub normalize_legacy : Text → ℕ → Text → Text → LegacyEnvelope P D → Envelope P D
  unfolding legacy_status only_error either
  normalize_legacy message_id now fresh default_source l = record {
    metadata =
        record (metadata message_id
          (or_text (or_empty l.meta_task_id) (or_text (or_empty l.task_id) fresh)) now
          (or_text (or_empty l.meta_source) default_source)) {
            destination = l.target;
            correlation_id = l.correlation_id;
            req_id = either l.req_id l.request_id;
            tenant_id = l.tenant_id;
            campaign_id = l.campaign_id;
            tags = (codes "legacy_envelope", codes "true") ∷ [];
            debug = some l.legacy_debug;
          };
    payload = l.legacy_payload;
    status = legacy_status l;
    error_text = only_error (legacy_status l) l.error_text;
    error_code = none;
  }

  -- `none` is the `ValueError`
  unfoldable pub normalize_envelope : Text → ℕ → Text → Text → Input P D → Option (Envelope P D)
  unfolding normalize_legacy
  normalize_envelope message_id now fresh default_source (typed e) = some e
  normalize_envelope message_id now fresh default_source (dict (some e) l) = some e
  normalize_envelope message_id now fresh default_source (dict none (some l)) =
      some (normalize_legacy message_id now fresh default_source l)
  normalize_envelope message_id now fresh default_source (dict none none) = none
  normalize_envelope message_id now fresh default_source unsupported = none
