-- ===== src/Callbacks/Revisions.antt =====
-- What one accepted change does to a callback row: theorems about `revise`, the part of `mutate`
-- (app/api/v1/callbacks.py) between the loading of the row and the commit.
use codestra_middleware.Base.{
  ℕ, ◌+◌, ◌≡◌, refl, ◌⊎◌, inl, inr, Bool, true, false, not, ◌&&◌, ◌||◌, some, String, ok, arith,
  string_eq, nat_eq, >>=-eq-ok, raise_if-eq-ok,
}
use codestra_middleware.Raised.{as_http-eq-ok}
use codestra_middleware.Clock.{ZoneDatabase}
use codestra_middleware.Callbacks.{transition, reminders}
use codestra_middleware.Callbacks.Records.{
  CallbackRecord, Principal, Change, Target, snoozed, rescheduled, completed, reassigned, updated,
}
use codestra_middleware.Callbacks.Api.{
  authorize, reschedule, check_transition, assign, annotate, remind, set_reminders, close, settle,
  revise, truthy, effective, moves_schedule,
}

-- The fields that only the last step changes, or that none does.
pub record Keeps (a b : CallbackRecord) : Type 0 where
  pub id : b.id ≡ a.id
  pub tenant_id : b.tenant_id ≡ a.tenant_id
  pub campaign_id : b.campaign_id ≡ a.campaign_id
  pub idempotency_key : b.idempotency_key ≡ a.idempotency_key
  pub state : b.state ≡ a.state
  pub version : b.version ≡ a.version

reschedule-Keeps :
    (zones : ZoneDatabase) (now : ℕ) (target : Target) (body : Change) (row new : CallbackRecord)
    → reschedule zones now target body row ≡ ok new
    → Keeps row new
unfolding reschedule
reschedule-Keeps zones now snoozed body row new h = ground arith
reschedule-Keeps zones now rescheduled body row new h = ground arith
reschedule-Keeps zones now _ body row new h = ground arith

assign-Keeps :
    (target : Target) (body : Change) (row : CallbackRecord) → Keeps row (assign target body row)
unfolding assign
assign-Keeps target body row = ground arith

remind-Keeps :
    (target : Target) (row new : CallbackRecord) → remind target row ≡ ok new → Keeps row new
unfolding remind set_reminders
remind-Keeps target row new h = ground arith

close-Keeps :
    (now : ℕ) (target : Target) (body : Change) (row : CallbackRecord)
    → Keeps row (close now target body row)
unfolding close
close-Keeps now completed body row = ground arith
close-Keeps now _ body row = ground arith

-- The stages that an accepted change has passed.
record Stages (zones : ZoneDatabase) (now : ℕ) (target : Target) (body : Change) (p : Principal)
    (row new : CallbackRecord) : Type 0 where
  scheduled : CallbackRecord
  reminded : CallbackRecord
  authorized : authorize target body p row ≡ ok tt
  schedule_set : reschedule zones now target body row ≡ ok scheduled
  allowed : check_transition target scheduled.state ≡ ok tt
  owned :
      (truthy (assign target body scheduled).assigned_agent_id
        || truthy (assign target body scheduled).assigned_team_id)
      ≡ true
  reminders_set : remind target (annotate body (assign target body scheduled)) ≡ ok reminded
  settled : settle target (close now target body reminded) ≡ new

not_both : (a b : Bool) → (not a && not b) ≡ false → (a || b) ≡ true
not_both a b h = ground arith

revise-Stages :
    (zones : ZoneDatabase) (now : ℕ) (target : Target) (body : Change) (p : Principal)
    (row new : CallbackRecord)
    → revise zones now target body p row ≡ ok new
    → Stages zones now target body p row new
unfolding revise
revise-Stages zones now target body p row new h =
    let (u, authorized, h₁) = >>=-eq-ok (authorize target body p row) _ h in
    let (scheduled, schedule_set, h₂) = >>=-eq-ok (reschedule zones now target body row) _ h₁ in
    let (v, allowed, h₃) = >>=-eq-ok (check_transition target scheduled.state) _ h₂ in
    let (owned, h₄) = raise_if-eq-ok _ _ _ h₃ in
    let (reminded, reminders_set, h₅) =
      >>=-eq-ok (remind target (annotate body (assign target body scheduled))) _ h₄ in
    record {
      scheduled = scheduled;
      reminded = reminded;
      authorized = authorized;
      schedule_set = schedule_set;
      allowed = allowed;
      owned = not_both _ _ owned;
      reminders_set = reminders_set;
      settled = cc h₅;
    }

Keeps-trans : {a b c : CallbackRecord} → Keeps a b → Keeps b c → Keeps a c
Keeps-trans h k = ground arith

annotate-Keeps : (body : Change) (row : CallbackRecord) → Keeps row (annotate body row)
unfolding annotate
annotate-Keeps body row = ground arith

-- Every step but the last keeps the identity, the state and the version.
Stages-Keeps :
    (zones : ZoneDatabase) (now : ℕ) (target : Target) (body : Change) (p : Principal)
    (row new : CallbackRecord) (s : Stages zones now target body p row new)
    → Keeps row (close now target body s.reminded)
Stages-Keeps zones now target body p row new s =
    Keeps-trans (reschedule-Keeps zones now target body row s.scheduled s.schedule_set) (
      Keeps-trans (assign-Keeps target body s.scheduled) (
        Keeps-trans (annotate-Keeps body (assign target body s.scheduled)) (
          Keeps-trans (remind-Keeps target _ s.reminded s.reminders_set)
            (close-Keeps now target body s.reminded))))

authorize-version :
    (target : Target) (body : Change) (p : Principal) (row : CallbackRecord)
    → authorize target body p row ≡ ok tt
    → row.version ≡ body.expected_version
unfolding authorize
authorize-version target body p row h = ground arith

check_transition-eq :
    (target : Target) (state : String)
    → check_transition target state ≡ ok tt
    → (effective target state ≡ state) ⊎ (transition state (effective target state) ≡ ok tt)
unfolding check_transition
check_transition-eq reassigned state h = inl refl
check_transition-eq updated state h = inl refl
check_transition-eq _ state h = inr (as_http-eq-ok 409 _ h)

settle-version :
    (target : Target) (row : CallbackRecord) → (settle target row).version ≡ row.version + 1
unfolding settle
settle-version target row = refl

settle-state :
    (target : Target) (row : CallbackRecord)
    → (settle target row).state ≡ effective target row.state
unfolding settle
settle-state target row = refl

settle-id :
    (target : Target) (row : CallbackRecord)
    → ((settle target row).id ≡ row.id)
      × ((settle target row).tenant_id ≡ row.tenant_id)
      × ((settle target row).campaign_id ≡ row.campaign_id)
unfolding settle
settle-id target row = (refl, refl, refl)

record KeepsOwner (a b : CallbackRecord) : Type 0 where
  agent : b.assigned_agent_id ≡ a.assigned_agent_id
  team : b.assigned_team_id ≡ a.assigned_team_id

-- From the assignment to the end of the change the owner stays.
close-KeepsOwner :
    (now : ℕ) (target : Target) (body : Change) (row reminded : CallbackRecord)
    → remind target (annotate body row) ≡ ok reminded
    → KeepsOwner row (settle target (close now target body reminded))
unfolding annotate remind set_reminders settle close
close-KeepsOwner now completed body row reminded h = ground arith
close-KeepsOwner now _ body row reminded h = ground arith

-- The reminder times that a row has are those of its schedule.
abbrev pub HasReminders : CallbackRecord → Type 0
HasReminders row =
    (times : ℕ × ℕ × ℕ) × (reminders row.scheduled_at ≡ ok times)
    × (row.email_reminder_1_at ≡ some times.0)
    × (row.email_reminder_2_at ≡ some times.1)
    × (row.popup_reminder_at ≡ some times.2)

set_reminders-HasReminders :
    (row new : CallbackRecord) → set_reminders row ≡ ok new → HasReminders new
unfolding set_reminders
set_reminders-HasReminders row new h =
    let (times, e, f) = >>=-eq-ok (reminders row.scheduled_at) _ h in
    (times, cc (e, f), cc f, cc f, cc f)

settle-reminders :
    (now : ℕ) (target : Target) (body : Change) (row reminded : CallbackRecord)
    → moves_schedule target ≡ true
    → remind target row ≡ ok reminded
    → HasReminders (settle target (close now target body reminded))
unfolding remind settle close
settle-reminders now snoozed body row reminded m h = set_reminders-HasReminders row reminded h
settle-reminders now rescheduled body row reminded m h = set_reminders-HasReminders row reminded h
settle-reminders now _ body row reminded m h = cc

module _ (zones : ZoneDatabase) (now : ℕ) (target : Target) (body : Change) (p : Principal)
    (row new : CallbackRecord) (accepted : revise zones now target body p row ≡ ok new) where
  pub revise-authorized : authorize target body p row ≡ ok tt
  revise-authorized = (revise-Stages zones now target body p row new accepted).authorized

  -- A change is accepted only at the version that its author has seen, and raises it by one.
  pub revise-version : (row.version ≡ body.expected_version) × (new.version ≡ row.version + 1)
  revise-version =
      let s = revise-Stages zones now target body p row new accepted in
      let k = Stages-Keeps zones now target body p row new s in
      (
        authorize-version target body p row s.authorized,
        rw (← s.settled, settle-version, k.version) refl,
      )

  -- The row stays the same callback of the same tenant and campaign.
  pub revise-identity :
      (new.id ≡ row.id) × (new.tenant_id ≡ row.tenant_id) × (new.campaign_id ≡ row.campaign_id)
  revise-identity =
      let s = revise-Stages zones now target body p row new accepted in
      let k = Stages-Keeps zones now target body p row new s in
      let i = settle-id target (close now target body s.reminded) in
      (
        cc (s.settled, k.id, i.0),
        cc (s.settled, k.tenant_id, i.1),
        cc (s.settled, k.campaign_id, i.2),
      )

  -- The new state is the target's, or the old one where the target has none; and it is the old
  -- state, or one that the table lets the old state become.
  pub revise-state :
      (new.state ≡ effective target row.state)
      × ((new.state ≡ row.state) ⊎ (transition row.state new.state ≡ ok tt))
  revise-state =
      let s = revise-Stages zones now target body p row new accepted in
      let k = Stages-Keeps zones now target body p row new s in
      let k₁ = reschedule-Keeps zones now target body row s.scheduled s.schedule_set in
      let e : new.state ≡ effective target row.state =
        rw (← s.settled, settle-state, k.state) refl in
      let moved : check_transition target row.state ≡ ok tt = rw (← k₁.state) s.allowed in
      (e, rw e (check_transition-eq target row.state moved))

  -- The row has an agent or a team after the change.
  pub revise-owner : (truthy new.assigned_agent_id || truthy new.assigned_team_id) ≡ true
  revise-owner =
      let s = revise-Stages zones now target body p row new accepted in
      let o = close-KeepsOwner now target body _ s.reminded s.reminders_set in
      rw (← s.settled, o.agent, o.team) s.owned

  -- A callback that is moved gets the reminder times of its new schedule.
  pub revise-reminders : moves_schedule target ≡ true → HasReminders new
  revise-reminders m =
      let s = revise-Stages zones now target body p row new accepted in
      rw (← s.settled) (settle-reminders now target body _ s.reminded m s.reminders_set)
