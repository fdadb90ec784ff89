-- ===== src/Routing.antt =====
-- tiers/tier_1/manager/policy/router.py: the manager's plan for an intent. The files of the routing are a
-- parameter, by what reading them gives; `str`, `json.dumps` and the confidence are parameters too. A file
-- that is read is well typed: an `intents` that is no dictionary, which raises, and a route that is a bare
-- text, whose characters the code goes through, are left out. So is the cache of `lru_cache`.
pub mod Plan
pub mod Depth
mod Tests
use enterprise_ai_sales_orch.Prelude.{
  map, ◌++◌, Bool, true, false, ◌||◌, ◌&&◌, Option, none, some, List, [], ◌∷◌, any, if◌then◌else◌,
}
use enterprise_ai_sales_orch.Prelude.Text.{
  Text, codes, text_eq, truthy, lower, listed, occurs, or_empty, or_text, join_spaces,
}
use enterprise_ai_sales_orch.Persistence.Value.{
  text_or_null, Value, null, text, arr, obj, Items, nil, item, Fields, end, entry, get, is_true,
}

-- a mapping of intents to orchestrators
abbrev pub Routes : Type 0
Routes = List (Text × List Text)

-- what a file of the routing holds: `intents`, and `default_fallback_orchestrator` if it is a text
pub record RoutingFile : Type 0 where
  pub intents : Routes
  pub fallback : Option Text

-- no such file, one whose reading raises, or its contents
pub data Reading : Type 0 where
  missing : Reading
  unreadable : Reading
  contents : RoutingFile → Reading

-- the file that MANAGER_ROUTING_CONFIG names, those of the tenants and the default one, and
-- MANAGER_DEFAULT_FALLBACK_ORCH
pub record Configuration : Type 0 where
  pub env_file : Reading
  pub tenant_file : Text → Reading
  pub default_file : Reading
  pub env_fallback : Text

-- the fields that the router reads; `body` is `text`
pub record UnifiedManagerRequest : Type 0 where
  pub tenant_id : Option Text
  pub source : Text
  pub subject : Option Text
  pub body : Option Text
  pub payload : Value

pub record PlannedTask : Type 0 where
  pub stream : Text
  pub payload : Fields

pub data ContextDepth : Type 0 where
  deep : ContextDepth
  shallow : ContextDepth

-- the fields that it sets
pub record ManagerDecision (C : Type 0) : Type 0 where
  pub intent : Text
  pub confidence : C
  pub reasons : List Text
  pub orchestrators : List Text
  pub tasks : List PlannedTask
  pub used_fallback : Bool
  pub context_depth : ContextDepth

abbrev pub default_routing : Routes
default_routing =
    (codes "start_campaign", codes "control" ∷ codes "leads" ∷ codes "outbound" ∷ [])
    ∷ (codes "lead_enrichment", codes "leads" ∷ [])
    ∷ (codes "outbound", codes "outbound" ∷ [])
    ∷ (codes "outreach", codes "outbound" ∷ [])
    ∷ (codes "audit", codes "audit" ∷ [])
    ∷ (codes "inbound", codes "leads" ∷ [])
    ∷ (codes "control", codes "control" ∷ [])
    ∷ (codes "qualify_lead", codes "leads" ∷ [])
    ∷ []

-- `intents or _default_routing()`
abbrev pub or_default : Routes → Routes
or_default [] = default_routing
or_default (r ∷ rs) = r ∷ rs

-- a file whose failure means the defaults
abbrev pub read_or_default : Reading → Routes
read_or_default missing = default_routing
read_or_default unreadable = default_routing
read_or_default (contents f) = or_default f.intents

-- the file of a tenant, if it has intents
abbrev pub with_tenant : Reading → Routes → Routes
with_tenant (contents f) others = elim f.intents [ [] ↦ others | r ∷ rs ↦ r ∷ rs ]
with_tenant _ others = others

unfoldable pub get_routing_map : Configuration → Text → Routes
get_routing_map c tenant_id = elim c.env_file [
  | missing ↦
      if truthy tenant_id
      then with_tenant (c.tenant_file tenant_id) (read_or_default c.default_file)
      else read_or_default c.default_file
  | unreadable ↦ default_routing
  | contents f ↦ or_default f.intents
]

abbrev pub control : Text
control = codes "control"

-- the default file's fallback
abbrev pub last_fallback : Reading → Text
last_fallback (contents f) = or_text (or_empty f.fallback) control
last_fallback _ = control

-- the tenant's fallback: a file that cannot be read ends the search
abbrev pub tenant_fallback : Reading → Reading → Text
tenant_fallback missing next = last_fallback next
tenant_fallback unreadable next = control
tenant_fallback (contents f) next = or_text (or_empty f.fallback) (last_fallback next)

unfoldable pub get_default_fallback_orchestrator : Configuration → Option Text → Text
get_default_fallback_orchestrator c tenant_id =
    if truthy c.env_fallback
    then c.env_fallback
    else if truthy (or_empty tenant_id)
    then tenant_fallback (c.tenant_file (or_empty tenant_id)) c.default_file
    else last_fallback c.default_file

-- `ORCH_ALIASES.get(orch, orch)`
unfoldable pub canonical_orchestrator : Text → Text
canonical_orchestrator orch = if text_eq orch (codes "outreach") then codes "outbound" else orch

abbrev pub orchestrator_stream : Text → Text → Text
orchestrator_stream tenant_id orch =
    tenant_id ++ (codes ":orchestrators:" ++ (orch ++ codes ":tasks"))

unfoldable pub stream_for : Text → Text → Text
unfolding canonical_orchestrator
stream_for tenant_id orch = orchestrator_stream tenant_id (canonical_orchestrator orch)

-- one round of the loop over the orchestrators
unfoldable pub add_canonical : List Text → Text → List Text
unfolding canonical_orchestrator
add_canonical acc orch =
    if listed (canonical_orchestrator orch) acc
    then acc
    else acc ++ canonical_orchestrator orch ∷ []

unfoldable pub canonical_list : List Text → List Text → List Text
unfolding add_canonical
canonical_list acc [] = acc
canonical_list acc (orch ∷ orchs) = canonical_list (add_canonical acc orch) orchs

-- `mapping.get(intent, [])`
unfoldable pub route_of : Text → Routes → List Text
route_of intent [] = []
route_of intent ((i, orchs) ∷ rs) = if text_eq i intent then orchs else route_of intent rs

abbrev pub as_dict : Value → Fields
as_dict (obj d) = d
as_dict _ = end

abbrev pub as_items : Value → Items
as_items (arr vs) = vs
as_items _ = nil

abbrev pub is_filled_dict : Value → Bool
is_filled_dict (obj (entry k v d)) = true
is_filled_dict _ = false

abbrev pub deep_keywords : List Text
deep_keywords =
    codes "reply"
    ∷ codes "respond"
    ∷ codes "thread"
    ∷ codes "history"
    ∷ codes "context"
    ∷ codes "previous"
    ∷ codes "conversation"
    ∷ []

abbrev pub mentions : Text → Bool
mentions blobs = any (λ k. occurs k blobs) deep_keywords

abbrev pub blobs_with : UnifiedManagerRequest → Option Text → Option Text
blobs_with req none = none
blobs_with req (some json) =
    some (lower (join_spaces (or_empty req.subject ∷ or_empty req.body ∷ json ∷ [])))

-- `str`, and `json.dumps(payload, default=str)`, where none is an exception
module _ (str : Value → Text) (dumps : Fields → Option Text) where
  unfoldable pub has_reply : Items → Bool
  has_reply nil = false
  has_reply (item v vs) = text_eq (lower (str v)) (codes "reply") || has_reply vs

  -- the texts that are searched for the words
  unfoldable pub text_blobs : UnifiedManagerRequest → Fields → Option Text
  text_blobs req payload = blobs_with req (if is_true (obj payload) then dumps payload else some [])

  -- the decision, by the two tests and the texts
  abbrev pub depth_of : Bool → Bool → Option Text → ContextDepth
  depth_of reply_allowed has_email none = shallow
  depth_of reply_allowed has_email (some blobs) =
      if reply_allowed || has_email || mentions blobs then deep else shallow

  abbrev pub context_of : Value → Fields
  context_of payload = as_dict (get (codes "context") (as_dict payload))

  unfoldable pub determine_context_depth : UnifiedManagerRequest → ContextDepth
  unfolding has_reply text_blobs get
  determine_context_depth req =
      depth_of (has_reply (as_items (get (codes "actions_allowed") (context_of req.payload))))
        (is_filled_dict (get (codes "email_event") (context_of req.payload)))
        (text_blobs req (as_dict req.payload))

  -- `req.payload or {}`
  abbrev or_empty_dict : Value → Value
  or_empty_dict v = if is_true v then v else obj end

  unfoldable pub task_of : Text → UnifiedManagerRequest → Text → PlannedTask
  unfolding stream_for
  task_of intent req orch = record {
    stream = stream_for (or_text (or_empty req.tenant_id) (codes "default")) orch;
    payload = entry (codes "tenant_id") (text_or_null req.tenant_id) (
        entry (codes "source") (text req.source) (
          entry (codes "intent") (text intent) (
            entry (codes "subject") (text_or_null req.subject) (
              entry (codes "text") (text_or_null req.body)
                (entry (codes "payload") (or_empty_dict req.payload) end)))));
  }

  unfoldable pub routed : Configuration → Text → UnifiedManagerRequest → List Text
  unfolding get_routing_map route_of
  routed c intent req =
      route_of intent (get_routing_map c (or_text (or_empty req.tenant_id) (codes "default")))

  -- the orchestrators of the mapping, or the fallback
  unfoldable pub chosen_orchestrators :
      Configuration → List Text → UnifiedManagerRequest → List Text
  unfolding get_default_fallback_orchestrator
  chosen_orchestrators c [] req = get_default_fallback_orchestrator c req.tenant_id ∷ []
  chosen_orchestrators c (o ∷ os) req = o ∷ os

  abbrev pub is_none_routed : List Text → Bool
  is_none_routed [] = true
  is_none_routed (o ∷ os) = false

  unfoldable pub build_plan :
      {C : Type 0}
      → Configuration
      → Text
      → C
      → List Text
      → UnifiedManagerRequest
      → ManagerDecision C
  unfolding determine_context_depth routed chosen_orchestrators canonical_list task_of
  build_plan c intent confidence reasons req =
      let orch_list = routed c intent req in
      let orchestrators = canonical_list [] (chosen_orchestrators c orch_list req) in
      record {
        intent = intent;
        confidence = confidence;
        reasons = reasons;
        orchestrators = orchestrators;
        tasks = map (task_of intent req) orchestrators;
        used_fallback = is_none_routed orch_list;
        context_depth = determine_context_depth req;
      }
