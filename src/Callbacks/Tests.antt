-- ===== src/Callbacks/Tests.antt =====
-- The theorems on app/core/callbacks.py and app/api/v1/callbacks.py at one callback that is due, and
-- runs of its operations.
use codestra_middleware.Base.{
  ◌≡◌, refl, ap, Bool-cases, inl, inr, ◌⊎◌, true, none, some, [], ◌∷◌, String, ok, err, contains,
  string_eq, ◌==◌, All,
}
use codestra_middleware.Raised.{http_exception}
use codestra_middleware.Json.{object, end}
use codestra_middleware.Clock.{ZoneDatabase, before}
use codestra_middleware.Transitions.{Reach, allowed}
use codestra_middleware.Callbacks.{terminal, transitions, transition, reminders, canonical_time}
use codestra_middleware.Callbacks.Records.{
  CallbackRecord, CallbackDelivery, Database, Principal, Change, DeliveryResult, snoozed, cancelled,
  reassigned, updated,
}
use codestra_middleware.Callbacks.Api.{
  scope, find_row, load, truthy, managers, authorize, reschedule, check_transition, assign,
  annotate, set_reminders, remind, close, effective, settle, revise, CallbackView, view, has_event,
  commit, mutate, settle_delivery, retire,
}
use codestra_middleware.Callbacks.Lifecycle.{can_end}
use codestra_middleware.Callbacks.Revisions.{revise-state}
use codestra_middleware.Callbacks.Races.{
  Request, no_lost_update, call, serve, IsAudited, serve-IsAudited,
}
use codestra_middleware.Callbacks.Deliveries.{IsStale, mutate-not-IsStale}
use codestra_middleware.Callbacks.Assignments.{updated_by_anyone}

abbrev row : CallbackRecord
row = record {
  id = "c1";
  tenant_id = "acme";
  campaign_id = "camp";
  contact_id = none;
  lead_id = none;
  opportunity_id = none;
  original_call_id = none;
  original_linkedid = none;
  assigned_agent_id = some "ann";
  assigned_user_id = none;
  assigned_team_id = none;
  supervisor_id = none;
  phone_number = "+15550100";
  normalized_phone = "+15550100";
  scheduled_at = 200000000000;
  customer_timezone = "UTC";
  priority = "NORMAL";
  reason = "";
  notes = "";
  state = "DUE";
  desired_state = "DUE";
  actual_state = "DUE";
  reminder_email_enabled = true;
  reminder_popup_enabled = true;
  email_reminder_1_at = none;
  email_reminder_2_at = none;
  popup_reminder_at = none;
  attempt_count = 0;
  max_attempts = 3;
  last_attempt_at = none;
  next_attempt_at = none;
  completed_at = none;
  cancelled_at = none;
  completion_disposition = none;
  completion_notes = none;
  correlation_id = "corr";
  idempotency_key = "created";
  request_hash = "hash";
  version = 0;
  sync_state = "SYNCED";
  compliance_json = [];
  context_json = object end;
  created_by = "ann";
}

abbrev delivery : CallbackDelivery
delivery = record {
  id = "d1";
  callback_id = "c1";
  callback_version = 0;
  channel = "email";
  stage = "1";
  idempotency_key = "dk";
  status = "QUEUED";
  message_id = none;
  provider_message_id = none;
  attempt_count = 0;
  last_error_code = none;
  next_attempt_at = none;
}

abbrev db : Database
db = record { rows = row ∷ []; events = []; deliveries = delivery ∷ [] }

abbrev principal : Principal
principal = record {
  actor = "sue";
  tenant = "acme";
  campaigns = "camp" ∷ [];
  role = "supervisor";
  teams = "red" ∷ [];
}

abbrev body : Change
body = record {
  expected_version = 0;
  scheduled_at = none;
  customer_timezone = none;
  assigned_agent_id = none;
  assigned_team_id = none;
  reason = none;
  notes = none;
  completion_disposition = none;
  completion_notes = none;
  snooze_minutes = some 10;
}

abbrev zones : ZoneDatabase
zones name = none

-- The callback, snoozed for ten minutes.
abbrev moved : CallbackRecord
moved = record row {
  scheduled_at = 300600000000;
  email_reminder_1_at = some 214200000000;
  email_reminder_2_at = some 297000000000;
  popup_reminder_at = some 299700000000;
  state = "SNOOZED";
  desired_state = "SNOOZED";
  actual_state = "SNOOZED";
  version = 1;
  sync_state = "PENDING";
}

revise_runs : revise zones 300000000000 snoozed body principal row ≡ ok moved
unfolding revise authorize reschedule check_transition transition allowed assign annotate remind
    set_reminders reminders before close settle
revise_runs = refl

abbrev request : Request
request = record {
  now = 300000000000;
  event_id = "e1";
  callback_id = "c1";
  target = snoozed;
  body = body;
  key = "k1";
  correlation = "corr";
  principal = principal;
}

abbrev committed : Database
committed = commit db "e1" snoozed body "k1" "corr" principal row moved

call_runs : call zones request db ≡ ok (view moved, committed)
unfolding mutate load find_row scope revise authorize reschedule check_transition transition allowed
    assign annotate remind set_reminders reminders before close settle
call_runs = refl

-- The same request again.
replay_runs : call zones request committed ≡ ok (view moved, committed)
unfolding mutate load find_row scope commit codestra_middleware.Callbacks.Api.set_row
    codestra_middleware.Callbacks.Api.event
replay_runs = refl

no_lost_update_example : committed ≡ committed
no_lost_update_example =
    no_lost_update zones request request db committed committed (view moved) (view moved) call_runs
      refl refl refl replay_runs

-- Another target under the same key.
cancel_runs :
    call zones (record request { target = cancelled }) committed ≡ ok (view moved, committed)
unfolding mutate load find_row scope commit codestra_middleware.Callbacks.Api.set_row
    codestra_middleware.Callbacks.Api.event
cancel_runs = refl

-- The row has version 0 and no event.
db-IsAudited : IsAudited db
unfolding find_row
db-IsAudited = record {
  at_row = λ id r e. elim (Bool-cases ("c1" == id)) [
    | inl same ↦ let is_row : r ≡ row = cc (rw same at e) in ap (λ x. x.version) is_row
    | inr other ↦ absurd (cc (rw other at e))
  ];
}

serve-IsAudited_example : IsAudited (serve zones (request ∷ []) db)
serve-IsAudited_example = serve-IsAudited zones (request ∷ []) db db-IsAudited

mutate-not-IsStale_example : All (λ d. ¬ IsStale "c1" 0 d) committed.deliveries
mutate-not-IsStale_example =
    mutate-not-IsStale zones 300000000000 "e1" "c1" snoozed body "k1" "corr" db principal
      (view moved) committed call_runs refl (λ e. cc e) (λ e. cc e)

revise-state_example :
    (moved.state ≡ effective snoozed "DUE")
    × ((moved.state ≡ "DUE") ⊎ (transition "DUE" moved.state ≡ ok tt))
revise-state_example = revise-state zones 300000000000 snoozed body principal row moved revise_runs

-- To a team of the supervisor's.
abbrev handed : Change
handed = record body { assigned_team_id = some "red" }

abbrev given_away : CallbackRecord
given_away = record row {
  assigned_agent_id = none;
  assigned_team_id = some "red";
  version = 1;
  sync_state = "PENDING";
}

reassign_runs : revise zones 300000000000 reassigned handed principal row ≡ ok given_away
unfolding revise authorize reschedule check_transition assign annotate remind close settle
reassign_runs = refl

-- By an agent.
abbrev named : Change
named = record body { assigned_agent_id = some "bob" }

abbrev agent : Principal
agent = record principal { actor = "ann"; role = "agent" }

updated_by_anyone_example :
    (revise zones 1 reassigned named agent row
      ≡ err (http_exception 403 "reassignment role denied"))
    × (new : CallbackRecord) × (revise zones 1 updated named agent row ≡ ok new)
    × (new.assigned_agent_id ≡ some "bob")
updated_by_anyone_example = updated_by_anyone zones 1 named agent row refl refl refl refl

abbrev outcome : DeliveryResult
outcome = record {
  callback_version = 0;
  channel = "email";
  stage = "1";
  status = "FAILED";
  message_id = none;
  provider_message_id = none;
  error_code = some "550";
}

completed_runs : transition "IN_PROGRESS" "COMPLETED" ≡ ok tt
unfolding transition allowed
completed_runs = refl

can_end_example : (t : String) × Reach transitions "FAILED" t × (contains t terminal ≡ true)
can_end_example = can_end "FAILED" refl
