-- ===== src/Callbacks/Api/Commit.antt =====
-- What `mutate` of app/api/v1/callbacks.py writes: the row, its event and the deliveries that it
-- retires.
use Prim.Native.String.{◌++◌ as append}
use codestra_middleware.Base.{
  ℕ, Bool, true, false, ◌&&◌, Option, none, some, List, [], ◌∷◌, ◌++◌, String, ok, ◌>>=◌,
  if◌then◌else◌, leb, ◌==◌, nat_eq, string_eq, contains, any, map, pos,
}
use codestra_middleware.Raised.{Outcome}
use codestra_middleware.Json.{Value, null, number, text, object, Fields, end, field}
use codestra_middleware.Clock.{ZoneDatabase}
use codestra_middleware.Text.{lower}
use codestra_middleware.Callbacks.Records.{
  CallbackRecord, CallbackEvent, CallbackDelivery, Database, Principal, Change, Target, in_progress,
  updated, target_name,
}
use codestra_middleware.Callbacks.Api.Access.{load}
use codestra_middleware.Callbacks.Api.Change.{revise, is_reassigned}

-- `CallbackEvent` of the tenant with the key that the request carries.
abbrev pub has_event : String → String → List CallbackEvent → Bool
has_event tenant key events = any (λ e. e.tenant_id == tenant && e.idempotency_key == key) events

-- What `_view` returns.
pub record CallbackView : Type 0 where
  pub id : String
  pub tenant_id : String
  pub campaign_id : String
  pub assigned_agent_id : Option String
  pub assigned_user_id : Option String
  pub assigned_team_id : Option String
  pub scheduled_at : ℕ
  pub customer_timezone : String
  pub priority : String
  pub reason : String
  pub notes : String
  pub state : String
  pub version : ℕ
  pub correlation_id : String
  pub completion_disposition : Option String
  pub completion_notes : Option String
  pub customer_context : Value

unfoldable pub view : CallbackRecord → CallbackView
view row = record {
  id = row.id;
  tenant_id = row.tenant_id;
  campaign_id = row.campaign_id;
  assigned_agent_id = row.assigned_agent_id;
  assigned_user_id = row.assigned_user_id;
  assigned_team_id = row.assigned_team_id;
  scheduled_at = row.scheduled_at;
  customer_timezone = row.customer_timezone;
  priority = row.priority;
  reason = row.reason;
  notes = row.notes;
  state = row.state;
  version = row.version;
  correlation_id = row.correlation_id;
  completion_disposition = row.completion_disposition;
  completion_notes = row.completion_notes;
  customer_context = row.context_json;
}

abbrev optional : Option String → Value
optional none = null
optional (some s) = text s

assignment : Option String → Option String → Value
assignment agent team =
    object (field "agent_id" (optional agent) (field "team_id" (optional team) end))

-- The payload of the event: a reassignment records both assignments.
unfoldable pub change_payload : Target → ℕ → CallbackRecord → CallbackRecord → Value
unfolding assignment
change_payload target from_version old row =
    let moved : Fields =
      field "previous_assignment" (assignment old.assigned_agent_id old.assigned_team_id)
        (field "new_assignment" (assignment row.assigned_agent_id row.assigned_team_id) end) in
    object (
      field "from_version" (number (pos from_version))
        (field "state" (text row.state) (if is_reassigned target then moved else end)))

-- `_event`
unfoldable pub event :
    String → CallbackRecord → String → String → Principal → Value → String → CallbackEvent
event event_id row kind key p payload correlation = record {
  id = event_id;
  callback_id = row.id;
  tenant_id = row.tenant_id;
  campaign_id = row.campaign_id;
  event_type = kind;
  version = row.version;
  idempotency_key = key;
  correlation_id = correlation;
  actor_id = p.actor;
  payload_json = payload;
}

-- The targets after which deliveries for older versions must not go out.
abbrev pub retires : Target → Bool
retires in_progress = false
retires updated = false
retires _ = true

abbrev pub is_waiting : CallbackDelivery → Bool
is_waiting d = contains d.status ("QUEUED" ∷ "RETRY_PENDING" ∷ [])

unfoldable pub retire : String → ℕ → CallbackDelivery → CallbackDelivery
retire callback_id expected_version d =
    if d.callback_id == callback_id && leb d.callback_version expected_version && is_waiting d
    then record d { status = "STALE_CANCELLED"; next_attempt_at = none }
    else d

unfoldable pub set_row : CallbackRecord → List CallbackRecord → List CallbackRecord
set_row new [] = []
set_row new (r ∷ rows) = if r.id == new.id then new ∷ rows else r ∷ set_row new rows

-- What `mutate` commits.
unfoldable pub commit :
    Database
    → String
    → Target
    → Change
    → String
    → String
    → Principal
    → CallbackRecord
    → CallbackRecord
    → Database
unfolding event change_payload
commit db event_id target body key correlation p old row = record {
  rows = set_row row db.rows;
  events =
      db.events
      ++ event event_id row (append "callback." (lower (target_name target))) key p
          (change_payload target body.expected_version old row) correlation
        ∷ [];
  deliveries =
      if retires target
      then map (retire row.id body.expected_version) db.deliveries
      else db.deliveries;
}

-- `mutate`: a request whose key the tenant has used already changes nothing.
unfoldable pub mutate :
    ZoneDatabase
    → ℕ
    → String
    → String
    → Target
    → Change
    → String
    → String
    → Database
    → Principal
    → Outcome (CallbackView × Database)
mutate zones now event_id callback_id target body key correlation db p = do
  row ← load db callback_id p
  if has_event p.tenant key db.events then ok (view row, db) else do
    new ← revise zones now target body p row
    ok (view new, commit db event_id target body key correlation p row new)
