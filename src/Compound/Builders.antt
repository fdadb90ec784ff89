-- ===== src/Compound/Builders.antt =====
-- The builders of compound operations for an inbound email and for a change of stage.
use enterprise_ai_sales_orch.Prelude.{
  ◌++◌, Bool, true, ◌&&◌, Option, none, some, List, [], ◌∷◌, if◌then◌else◌,
}
use enterprise_ai_sales_orch.Prelude.Text.{Text, codes, listed, truthy, or_empty}
use enterprise_ai_sales_orch.Persistence.Value.{
  Value, text, arr, obj, nil, item, Fields, end, entry, find, get, merge, is_true,
}
use enterprise_ai_sales_orch.Compound.Data.{
  StepOperation, create, update, upsert, TableStep, CompoundPayload,
}

-- a dictionary of one entry
abbrev one : Text → Value → Fields
one k v = entry k v end

-- `d.get(key, default)`
unfoldable pub get_or : Text → Value → Fields → Value
unfolding find
get_or k default d = elim (find k d) [ none ↦ default | some v ↦ v ]

-- a step with the defaults of its schema
abbrev pub table_step : Text → Text → StepOperation → Value → TableStep
table_step name table operation payload = record {
  step_name = name;
  table = table;
  operation = operation;
  payload = payload;
  where_clause = none;
  match_on = none;
  condition = none;
  on_error = codes "fail";
}

-- `CompoundPayload(steps=steps)`
abbrev pub payload_of : List TableStep → CompoundPayload
payload_of steps = record { steps = steps; rollback_on_failure = true; continue_on_skip = true }

-- the step of the lead, which every later one refers to
unfoldable pub lead_of : Fields → Fields → TableStep
unfolding merge get_or
lead_of email_event lead_data =
    record (table_step (codes "lead") (codes "leads") upsert
      (obj (merge (one (codes "email") (get_or (codes "from") (text []) email_event)) lead_data))) {
        match_on = some (codes "email" ∷ []);
      }

unfoldable pub conversation_of : Fields → TableStep
unfolding get_or get is_true
conversation_of email_event =
    let thread = get (codes "thread_id") email_event in
    record (table_step (codes "conversation") (codes "conversations") upsert (
      obj (
        entry (codes "lead_id") (text (codes "$ref:lead.id")) (
          entry (codes "thread_id") thread (
            entry (codes "subject") (get_or (codes "subject") (text []) email_event) (
              entry (codes "channel") (text (codes "email"))
                (one (codes "metadata") (obj end)))))))) {
                  match_on = some (
                      codes "lead_id"
                      ∷ (if is_true thread then codes "thread_id" else codes "subject")
                      ∷ []);
                }

unfoldable pub message_of : Fields → TableStep
unfolding get_or get
message_of email_event = table_step (codes "message") (codes "messages") create (
    obj (
      entry (codes "conversation_id") (text (codes "$ref:conversation.id")) (
        entry (codes "direction") (text (codes "inbound")) (
          entry (codes "content") (get_or (codes "body") (text []) email_event) (
            entry (codes "message_id") (get (codes "message_id") email_event)
              (one (codes "metadata") (get_or (codes "metadata") (obj end) email_event)))))))

abbrev pub stage_update : TableStep
stage_update =
    record (table_step (codes "update_stage") (codes "leads") update
      (obj (one (codes "stage") (text (codes "engaged"))))) {
        where_clause = some (one (codes "id") (text (codes "$ref:lead.id")));
        on_error = codes "warn";
      }

abbrev pub archived : Value
archived = obj (one (codes "archived_at") (text (codes "NOW()")))

abbrev pub staging_cleanup : Value → TableStep
staging_cleanup sender =
    record (table_step (codes "cleanup_staging") (codes "staging_leads") update archived) {
      where_clause = some (one (codes "email") sender);
      on_error = codes "skip";
    }

-- without lead data the dictionary is empty
unfoldable pub build_inbound_email_compound : Fields → Fields → Bool → CompoundPayload
unfolding lead_of conversation_of message_of get_or is_true
build_inbound_email_compound email_event lead_data cleanup_staging =
    let sender = get_or (codes "from") (text []) email_event in
    let cleanup = if cleanup_staging && is_true sender then staging_cleanup sender ∷ [] else [] in
    payload_of (
      lead_of email_event lead_data
      ∷ conversation_of email_event
      ∷ message_of email_event
      ∷ stage_update
      ∷ cleanup)

abbrev closed_stages : List Text
closed_stages = codes "closed_won" ∷ codes "closed_lost" ∷ codes "archived" ∷ []

abbrev pub lead_update : Text → Text → TableStep
lead_update lead_id new_stage =
    record (table_step (codes "update_lead") (codes "leads") update
      (obj (one (codes "stage") (text new_stage)))) {
        where_clause = some (one (codes "id") (text lead_id));
      }

abbrev pub note_step : Text → Text → TableStep
note_step lead_id note =
    record (table_step (codes "add_note") (codes "messages") create (
      obj (
        entry (codes "lead_id") (text lead_id) (
          entry (codes "direction") (text (codes "system")) (
            entry (codes "content") (text note) (
              one (codes "metadata")
                (obj (one (codes "type") (text (codes "stage_change_note")))))))))) {
                  on_error = codes "warn";
                }

abbrev pub archive_step : Text → TableStep
archive_step lead_id = record (table_step (codes "archive") (codes "leads") update archived) {
  where_clause = some (one (codes "id") (text lead_id));
  condition = some (record {
    field = codes "$ref:update_lead.stage";
    operator = codes "in";
    value = arr (
        item (text (codes "closed_won"))
          (item (text (codes "closed_lost")) (item (text (codes "archived")) nil)));
  });
}

unfoldable pub build_lead_lifecycle_compound : Text → Text → Option Text → Bool → CompoundPayload
build_lead_lifecycle_compound lead_id new_stage note archive_if_closed =
    let noted = if truthy (or_empty note) then note_step lead_id (or_empty note) ∷ [] else [] in
    let archiving =
      if archive_if_closed && listed new_stage closed_stages
      then archive_step lead_id ∷ []
      else [] in
    payload_of (lead_update lead_id new_stage ∷ noted ++ archiving)
