-- ===== src/Qualification/Input.antt =====
-- How the scorer reads its input. A value that is not missing is given by its text under `str`, which
-- is empty where the value counts as false.
use enterprise_ai_sales_orch.Prelude.{ℕ, Option, none, some, List, [], ◌∷◌}
use enterprise_ai_sales_orch.Prelude.Text.{Text, codes, lower, strip, or_text, or_empty}

-- The fields of `lead_data` that the scorer reads.
pub record Lead : Type 0 where
  pub email : Option Text
  pub company_name : Option Text
  pub company : Option Text
  pub job_title : Option Text
  pub title : Option Text
  pub phone_number : Option Text
  pub phone : Option Text
  pub linkedin_url : Option Text
  pub linkedin : Option Text

-- An entry of the conversation history: a dictionary, or what is none.
pub record RawMessage : Type 0 where
  pub content : Option Text
  pub text_content : Option Text
  pub direction : Option Text
  pub sender : Option Text

pub data HistoryEntry : Type 0 where
  message : RawMessage → HistoryEntry
  not_a_dict : HistoryEntry

pub record Message : Type 0 where
  pub content : Text
  pub direction : Text
  pub sender : Text

-- The classification: its category, and its confidence, in hundredths, with its text under `:.2f`.
-- What `float` does not read counts as 0.
pub record Classification : Type 0 where
  pub category : Option Text
  pub confidence : Option (ℕ × Text)

strip_field : Option Text → Option Text
strip_field none = none
strip_field (some s) = some (strip s)

abbrev pub no_lead : Lead
no_lead = record {
  email = none;
  company_name = none;
  company = none;
  job_title = none;
  title = none;
  phone_number = none;
  phone = none;
  linkedin_url = none;
  linkedin = none;
}

-- `none` is a `lead_data` that is no dictionary
unfoldable pub normalize_lead_data : Option Lead → Lead
unfolding strip_field
normalize_lead_data none = no_lead
normalize_lead_data (some l) = record {
  email = strip_field l.email;
  company_name = strip_field l.company_name;
  company = strip_field l.company;
  job_title = strip_field l.job_title;
  title = strip_field l.title;
  phone_number = strip_field l.phone_number;
  phone = strip_field l.phone;
  linkedin_url = strip_field l.linkedin_url;
  linkedin = strip_field l.linkedin;
}

direction_of : Option Text → Text
direction_of none = codes "unknown"
direction_of (some d) = lower d

normalize_message : RawMessage → Message
unfolding direction_of
normalize_message m = record {
  content = or_text (or_empty m.content) (or_empty m.text_content);
  direction = direction_of m.direction;
  sender = or_empty m.sender;
}

-- `none` is a history that is no list
unfoldable pub normalize_conversation_history : Option (List HistoryEntry) → List Message
unfolding normalize_message
normalize_conversation_history none = []
normalize_conversation_history (some []) = []
normalize_conversation_history (some (not_a_dict ∷ es)) = normalize_conversation_history (some es)
normalize_conversation_history (some (message m ∷ es)) =
    normalize_message m ∷ normalize_conversation_history (some es)

-- `str(s or default).lower()`
unfoldable pub normalize_word : Text → Option Text → Text
normalize_word default s = lower (or_text (or_empty s) default)
