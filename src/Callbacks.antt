-- ===== src/Callbacks.antt =====
-- The callback aggregate of app/core/callbacks.py: its states, the checks on its data and its
-- reminder times. The children hold the control API of app/api/v1/callbacks.py and the theorems.
pub mod Lifecycle
pub mod Records
pub mod Api
pub mod Revisions
pub mod Store
pub mod Races
pub mod Deliveries
pub mod Assignments
pub mod Tests
use Prim.Native.Char.{Char}
use Prim.Native.String.{◌++◌ as append}
use codestra_middleware.Base.{
  ℕ, ◌+◌, ◌≡◌, Bool, true, false, not, ◌&&◌, Option, none, some, List, [], ◌∷◌, String, ok, err,
  ◌>>=◌, ◌>>◌, raise_if, if◌then◌else◌, leb, ◌==◌, int_eq, all, Dict, ℤ, ⊤,
}
use codestra_middleware.Raised.{Outcome, value_error, callback_conflict}
use codestra_middleware.Clock.{DateTime, ZoneDatabase, before, hours, minutes}
use codestra_middleware.Text.{keep, size}
use codestra_middleware.Transitions.{Table, allowed}

abbrev pub terminal : List String
terminal = "COMPLETED" ∷ "CANCELLED" ∷ []

-- `TRANSITIONS`
abbrev pub transitions : Table
transitions =
    ("DRAFT", "SCHEDULED" ∷ "CANCELLED" ∷ "BLOCKED_COMPLIANCE" ∷ [])
    ∷ (
      "SCHEDULED",
      "REMINDER_PENDING" ∷ "READY" ∷ "DUE" ∷ "SNOOZED" ∷ "RESCHEDULED" ∷ "CANCELLED"
          ∷ "BLOCKED_COMPLIANCE" ∷ [],
    )
    ∷ (
      "REMINDER_PENDING",
      "READY" ∷ "DUE" ∷ "SNOOZED" ∷ "RESCHEDULED" ∷ "CANCELLED" ∷ "FAILED" ∷ [],
    )
    ∷ ("READY", "DUE" ∷ "SNOOZED" ∷ "RESCHEDULED" ∷ "CANCELLED" ∷ [])
    ∷ ("DUE", "IN_PROGRESS" ∷ "SNOOZED" ∷ "RESCHEDULED" ∷ "MISSED" ∷ "CANCELLED" ∷ [])
    ∷ ("IN_PROGRESS", "COMPLETED" ∷ "FAILED" ∷ "RESCHEDULED" ∷ [])
    ∷ ("SNOOZED", "REMINDER_PENDING" ∷ "READY" ∷ "DUE" ∷ "RESCHEDULED" ∷ "CANCELLED" ∷ [])
    ∷ ("RESCHEDULED", "REMINDER_PENDING" ∷ "READY" ∷ "DUE" ∷ "SNOOZED" ∷ "CANCELLED" ∷ [])
    ∷ ("MISSED", "ESCALATED" ∷ "IN_PROGRESS" ∷ "RESCHEDULED" ∷ "CANCELLED" ∷ [])
    ∷ ("ESCALATED", "IN_PROGRESS" ∷ "RESCHEDULED" ∷ "CANCELLED" ∷ "FAILED" ∷ [])
    ∷ ("FAILED", "SCHEDULED" ∷ "CANCELLED" ∷ [])
    ∷ ("BLOCKED_COMPLIANCE", "SCHEDULED" ∷ "CANCELLED" ∷ [])
    ∷ ("COMPLETED", [])
    ∷ ("CANCELLED", [])
    ∷ []

unfoldable pub transition : String → String → Outcome ⊤
transition current target = raise_if (not (allowed transitions current target)) (
    callback_conflict
      (append "invalid callback transition " (append current (append " -> " target))))

-- The digits are what `\d` matches: a class of characters, given by its test.
unfoldable pub normalized_phone : (Char → Bool) → String → Outcome String
normalized_phone is_digit value =
    let result = String.◌∷◌ "+" (keep is_digit value) in
    do
      raise_if (not (leb 8 (size result) && leb (size result) 16))
          (value_error "invalid phone number")
      ok result

-- The instant in UTC, if the offset that was supplied is the zone's at that instant.
unfoldable pub canonical_time : ZoneDatabase → DateTime → String → Outcome ℕ
canonical_time zones value timezone = elim (zones timezone) [
  | none ↦ err (value_error "unknown customer timezone")
  | some offset_at ↦ elim value.utc_offset [
    | none ↦ err (value_error "scheduled_at must include UTC offset")
    | some offset ↦
        if offset_at value.instant == offset
        then ok value.instant
        else err (value_error "scheduled_at offset does not match customer_timezone")
  ]
]

unfoldable pub reminders : ℕ → Outcome (ℕ × ℕ × ℕ)
reminders scheduled_at = do
  first ← before scheduled_at (hours 24)
  second ← before scheduled_at (hours 1)
  popup ← before scheduled_at (minutes 15)
  ok (first, second, popup)

abbrev pub checks_pass : Dict String Bool → Bool
checks_pass checks = all (λ c. c.1) checks

unfoldable pub compliance_state : Bool → Bool → Bool → Bool → Bool → String × Dict String Bool
compliance_state consent dnc suppressed within_calling_hours campaign_allowed =
    let checks : Dict String Bool =
      ("consent", consent)
      ∷ ("dnc_clear", not dnc)
      ∷ ("suppression_clear", not suppressed)
      ∷ ("calling_hours", within_calling_hours)
      ∷ ("campaign_allowed", campaign_allowed)
      ∷ [] in
    (if checks_pass checks then "SCHEDULED" else "BLOCKED_COMPLIANCE", checks)
