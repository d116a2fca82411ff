-- ===== src/Callbacks/Api/Change.antt =====
-- `mutate` of app/api/v1/callbacks.py from its checks to the new row: `revise`.
use codestra_middleware.Base.{
  ℕ, ◌+◌, Bool, true, false, not, ◌&&◌, Option, none, some, List, [], ◌∷◌, String, ok, err, ◌>>=◌,
  ◌>>◌, raise_if, if◌then◌else◌, ◌==◌, nat_eq, string_eq, contains, ⊤,
}
use codestra_middleware.Raised.{Outcome, http_exception, as_http}
use codestra_middleware.Clock.{ZoneDatabase, minutes}
use codestra_middleware.Text.{is_empty}
use codestra_middleware.Callbacks.{transition, canonical_time, reminders}
use codestra_middleware.Callbacks.Records.{
  CallbackRecord, Principal, Change, Target, snoozed, rescheduled, cancelled, completed, reassigned,
  updated, target_name,
}
use codestra_middleware.Callbacks.Api.Access.{is_in, truthy, is_none, given}

abbrev pub managers : List String
managers = "supervisor" ∷ "campaign_manager" ∷ "call_center_admin" ∷ "owner" ∷ []

abbrev pub is_reassigned : Target → Bool
is_reassigned reassigned = true
is_reassigned _ = false

-- The checks of `mutate` on the version and on a reassignment.
unfoldable pub authorize : Target → Change → Principal → CallbackRecord → Outcome ⊤
authorize target body p row = do
  raise_if (not (row.version == body.expected_version))
      (http_exception 409 "stale callback version")
  raise_if (is_reassigned target && not (contains p.role managers))
      (http_exception 403 "reassignment role denied")
  raise_if (is_reassigned target && is_none body.assigned_agent_id && is_none body.assigned_team_id)
      (http_exception 422 "new agent or team is required")
  raise_if
      (is_reassigned target
        && not (is_none body.assigned_team_id)
        && p.role == "supervisor"
        && not (is_in body.assigned_team_id p.teams))
      (http_exception 403 "reassignment team scope denied")

-- `body.snooze_minutes or 5`
abbrev pub snooze_for : Option ℕ → ℕ
snooze_for none = 5
snooze_for (some n) = if n == 0 then 5 else n

-- The new schedule of a snoozed or rescheduled callback.
unfoldable pub reschedule :
    ZoneDatabase → ℕ → Target → Change → CallbackRecord → Outcome CallbackRecord
reschedule zones now snoozed body row =
    ok (record row { scheduled_at = now + minutes (snooze_for body.snooze_minutes) })
reschedule zones now rescheduled body row = elim body.scheduled_at [
  | none ↦ err (http_exception 422 "schedule and timezone required")
  | some value ↦ elim body.customer_timezone [
    | none ↦ err (http_exception 422 "schedule and timezone required")
    | some timezone ↦ do
      raise_if (is_empty timezone) (http_exception 422 "schedule and timezone required")
      scheduled ← as_http 422 (canonical_time zones value timezone)
      ok (record row { scheduled_at = scheduled; customer_timezone = timezone })
  ]
]
reschedule zones now _ body row = ok row

-- `transition(row.state, target)`, which a reassignment and an update skip.
unfoldable pub check_transition : Target → String → Outcome ⊤
check_transition reassigned state = ok tt
check_transition updated state = ok tt
check_transition target state = as_http 409 (transition state (target_name target))

-- The assignments of the agent and the team.
unfoldable pub assign : Target → Change → CallbackRecord → CallbackRecord
assign target body row =
    let named = if is_none body.assigned_agent_id then row else record row {
      assigned_agent_id = body.assigned_agent_id;
      assigned_team_id =
          if is_reassigned target then body.assigned_team_id else row.assigned_team_id;
    } in
    if is_none body.assigned_team_id then named else record named {
      assigned_team_id = body.assigned_team_id;
      assigned_agent_id =
          if is_reassigned target && is_none body.assigned_agent_id
          then none
          else named.assigned_agent_id;
    }

-- `row.notes` and `row.reason`
unfoldable pub annotate : Change → CallbackRecord → CallbackRecord
annotate body row = record row {
  notes = given body.notes row.notes;
  reason = given body.reason row.reason;
}

abbrev pub moves_schedule : Target → Bool
moves_schedule snoozed = true
moves_schedule rescheduled = true
moves_schedule _ = false

-- The new reminder times of a callback.
unfoldable pub set_reminders : CallbackRecord → Outcome CallbackRecord
set_reminders row = do
  times ← reminders row.scheduled_at
  ok (record row {
    email_reminder_1_at = some times.0;
    email_reminder_2_at = some times.1;
    popup_reminder_at = some times.2;
  })

-- They are set anew where the schedule has moved.
unfoldable pub remind : Target → CallbackRecord → Outcome CallbackRecord
remind target row = if moves_schedule target then set_reminders row else ok row

-- The time stamps of a completed or cancelled callback.
unfoldable pub close : ℕ → Target → Change → CallbackRecord → CallbackRecord
close now completed body row = record row {
  completed_at = some now;
  completion_disposition = body.completion_disposition;
  completion_notes = body.completion_notes;
}
close now cancelled body row = record row { cancelled_at = some now }
close now _ body row = row

-- `effective`
abbrev pub effective : Target → String → String
effective reassigned state = state
effective updated state = state
effective target state = target_name target

unfoldable pub settle : Target → CallbackRecord → CallbackRecord
settle target row = record row {
  state = effective target row.state;
  desired_state = effective target row.state;
  actual_state = effective target row.state;
  version = row.version + 1;
  sync_state = "PENDING";
}

-- The new row of `mutate`, from its checks to its new version.
unfoldable pub revise :
    ZoneDatabase → ℕ → Target → Change → Principal → CallbackRecord → Outcome CallbackRecord
revise zones now target body p row = do
  authorize target body p row
  scheduled ← reschedule zones now target body row
  check_transition target scheduled.state
  let owned = assign target body scheduled
  raise_if (not (truthy owned.assigned_agent_id) && not (truthy owned.assigned_team_id))
      (http_exception 422 "callback cannot be orphaned")
  reminded ← remind target (annotate body owned)
  ok (settle target (close now target body reminded))
