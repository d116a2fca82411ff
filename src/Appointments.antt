-- ===== src/Appointments.antt =====
-- app/core/appointments.py: the states of an appointment, its timed events, the synthetic telephony
-- adapter and the ledger of claims. The `Lock` of the ledger makes a claim one step.
use Prim.Native.String.{◌++◌ as append}
use codestra_middleware.Base.{
  ℕ, ◌+◌, ◌≡◌, Bool, true, false, not, ◌&&◌, ◌||◌, Option, none, some, List, [], ◌∷◌, String, ok,
  err, ◌>>=◌, ◌>>◌, raise_if, if◌then◌else◌, contains, string_eq, ◌==◌, ℤ, pos, negsuc, Dict,
  lookup, insert, ⊤,
}
use codestra_middleware.Raised.{Outcome, value_error, permission_error}
use codestra_middleware.Clock.{before, minutes}
use codestra_middleware.Transitions.{Table, allowed}
pub mod Lifecycle
pub mod Claims
pub mod Tests

abbrev pub states : List String
states =
    "draft" ∷ "scheduled" ∷ "confirmed" ∷ "reminder_pending" ∷ "reminder_sent" ∷ "preparing" ∷ "due"
    ∷ "in_progress" ∷ "completed" ∷ "rescheduled" ∷ "cancelled" ∷ "customer_no_answer"
    ∷ "agent_missed" ∷ "customer_requested_callback" ∷ "supervisor_review" ∷ "failed" ∷ []

abbrev pub transitions : Table
transitions =
    ("draft", "scheduled" ∷ "cancelled" ∷ [])
    ∷ ("scheduled", "confirmed" ∷ "reminder_pending" ∷ "rescheduled" ∷ "cancelled" ∷ [])
    ∷ ("confirmed", "reminder_pending" ∷ "preparing" ∷ "rescheduled" ∷ "cancelled" ∷ [])
    ∷ ("reminder_pending", "reminder_sent" ∷ "preparing" ∷ "due" ∷ "rescheduled" ∷ "cancelled" ∷ [])
    ∷ ("reminder_sent", "preparing" ∷ "due" ∷ "rescheduled" ∷ "cancelled" ∷ [])
    ∷ ("preparing", "due" ∷ "in_progress" ∷ "rescheduled" ∷ "cancelled" ∷ "failed" ∷ [])
    ∷ ("due", "in_progress" ∷ "agent_missed" ∷ "customer_no_answer" ∷ "rescheduled" ∷ "failed" ∷ [])
    ∷ ("in_progress", "completed" ∷ "customer_requested_callback" ∷ "failed" ∷ [])
    ∷ ("agent_missed", "supervisor_review" ∷ "rescheduled" ∷ [])
    ∷ ("supervisor_review", "rescheduled" ∷ "cancelled" ∷ "completed" ∷ [])
    ∷ []

-- Minutes before (negative) or after the start.
abbrev pub event_offsets : Dict String ℤ
event_offsets =
    ("popup_15m", negsuc 14)
    ∷ ("email_15m", negsuc 14)
    ∷ ("warning_5m", negsuc 4)
    ∷ ("pause_2m", negsuc 1)
    ∷ ("due", pos 0)
    ∷ ("overdue_2m", pos 2)
    ∷ ("supervisor_5m", pos 5)
    ∷ ("manager_15m", pos 15)
    ∷ []

unfoldable pub transition : String → String → Outcome String
transition current target = do
  raise_if
      (not (contains current states)
        || not (contains target states)
        || not (allowed transitions current target))
      (value_error (append "invalid appointment transition " (append current (append "->" target))))
  ok target

pub record ReminderEvent : Type 0 where
  pub kind : String
  pub scheduled_at : ℕ
  pub idempotency_key : String

-- `start_utc + timedelta(minutes=offset)`
abbrev pub shift : ℕ → ℤ → Outcome ℕ
shift start (pos n) = ok (start + minutes n)
shift start (negsuc n) = before start (minutes (n + 1))

-- The events of the listed kinds.
unfoldable pub events_from : String → ℕ → Dict String ℤ → Outcome (List ReminderEvent)
events_from appointment_id start [] = ok []
events_from appointment_id start ((kind, offset) ∷ offsets) = do
  at ← shift start offset
  rest ← events_from appointment_id start offsets
  ok (
      record {
        kind = kind;
        scheduled_at = at;
        idempotency_key = append "appointment:" (append appointment_id (append ":" kind));
      }
      ∷ rest)

unfoldable pub reminder_events : String → ℕ → Outcome (List ReminderEvent)
reminder_events appointment_id start = events_from appointment_id start event_offsets

unfoldable pub may_access : String → List String → String → String → Bool
may_access actor_unit actor_campaigns unit campaign =
    actor_unit == unit && contains campaign actor_campaigns

pub record TelephonyState : Type 0 where
  pub state : String
  pub confirmed : Bool

-- `FakeTelephonyAdapter`; the agent that `pause` names is not looked at.
unfoldable pub pause : String → Bool → TelephonyState
pause agent active_call =
    if active_call
    then record { state = "pause_pending"; confirmed = false }
    else record { state = "APPT_PREP"; confirmed = true }

unfoldable pub resume : Bool → TelephonyState
resume disposition_complete =
    if not disposition_complete
    then record { state = "APPT_PREP"; confirmed = false }
    else record { state = "READY"; confirmed = true }

unfoldable pub start_call : Outcome ⊤
start_call = err (permission_error "live dial authorization is not granted")

module _ {A : Type 0} (sha256 : String → String) where
  unfoldable pub claim_as :
      String
      → String
      → A
      → Dict String (String × A)
      → Option (String × A)
      → Outcome (A × Dict String (String × A))
  claim_as key digest result values none = ok (result, insert key (digest, result) values)
  claim_as key digest result values (some prior) = do
    raise_if (not (prior.0 == digest)) (value_error "idempotency conflict")
    ok (prior.1, values)

  -- `IdempotencyLedger.claim`
  unfoldable pub claim :
      String → String → A → Dict String (String × A) → Outcome (A × Dict String (String × A))
  claim key body result values = claim_as key (sha256 body) result values (lookup key values)
