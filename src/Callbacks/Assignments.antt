-- ===== src/Callbacks/Assignments.antt =====
-- Who may hand a callback to another agent or team (app/api/v1/callbacks.py): the reassignment route
-- and the update route.
use codestra_middleware.Base.{
  ℕ, ◌≡◌, true, false, none, some, contains, String, ok, err, arith, string_eq, nat_eq, ==_iff,
}
use codestra_middleware.Raised.{http_exception}
use codestra_middleware.Clock.{ZoneDatabase}
use codestra_middleware.Callbacks.Records.{CallbackRecord, Principal, Change, reassigned, updated}
use codestra_middleware.Callbacks.Api.{
  authorize, reschedule, check_transition, assign, annotate, remind, close, settle, revise, truthy,
  managers,
}
use codestra_middleware.Callbacks.Revisions.{revise-authorized}

-- A reassignment is accepted only from a managing role, and a supervisor's only to one of the
-- supervisor's teams, or to an agent.
pub reassigned_by_manager :
    (zones : ZoneDatabase) (now : ℕ) (body : Change) (p : Principal) (row new : CallbackRecord)
    → revise zones now reassigned body p row ≡ ok new
    → (contains p.role managers ≡ true)
      × ((team : String)
          → body.assigned_team_id ≡ some team
          → p.role ≡ "supervisor"
          → contains team p.teams ≡ true)
unfolding authorize
reassigned_by_manager zones now body p row new h =
    let a = revise-authorized zones now reassigned body p row new h in
    (ground arith, λ team t s. ground (arith, ==_iff p.role "supervisor"))

-- A caller of any role, the roles included whose reassignments are refused, hands a callback over
-- by an update that names the new agent.
pub updated_by_anyone :
    (zones : ZoneDatabase) (now : ℕ) (body : Change) (p : Principal) (row : CallbackRecord)
    → row.version ≡ body.expected_version
    → truthy body.assigned_agent_id ≡ true
    → body.assigned_team_id ≡ none
    → contains p.role managers ≡ false
    → (revise zones now reassigned body p row ≡ err (http_exception 403 "reassignment role denied"))
      × (new : CallbackRecord) × (revise zones now updated body p row ≡ ok new)
      × (new.assigned_agent_id ≡ body.assigned_agent_id)
unfolding revise authorize reschedule check_transition assign annotate remind close settle
updated_by_anyone zones now body p row v a t r = (
  ground (arith, ==_iff row.version body.expected_version),
  settle updated (annotate body (assign updated body row)),
  ground (arith, ==_iff row.version body.expected_version),
  ground arith,
)
