-- ===== src/Appointments/Lifecycle.antt =====
-- What an appointment of app/core/appointments.py goes through, and when its events fall due.
use codestra_middleware.Base.{
  ℕ, ◌+◌, ◌≤◌, ◌≡◌, refl, true, List, [], ◌∷◌, map, String, ok, contains, all, string_eq, arith,
  contains-of_all, lookup, ◌-◌,
}
use codestra_middleware.Clock.{before, minutes}
use codestra_middleware.Transitions.{Reach, walk, leads_to, is_dead_end, dead_end-Reach, walk-meets}
use codestra_middleware.Appointments.{transitions, ReminderEvent, events_from, reminder_events}

-- The states that are over.
abbrev pub over : List String
over =
    "completed" ∷ "rescheduled" ∷ "cancelled" ∷ "customer_no_answer" ∷ "customer_requested_callback"
    ∷ "failed" ∷ []

over_dead : all (is_dead_end transitions) over ≡ true
unfolding is_dead_end lookup
over_dead = refl

-- No walk of allowed steps leaves a state that is over: completed, rescheduled, cancelled, no answer,
-- callback requested, failed.
pub over_stays : (s t : String) → contains s over ≡ true → Reach transitions s t → t ≡ s
over_stays s t e r =
    dead_end-Reach transitions (contains-of_all (is_dead_end transitions) s over over_dead e) r

-- A draft becomes completed only by way of its schedule.
pub completed_was_scheduled :
    (steps : List String)
    → walk transitions "draft" steps ≡ true
    → contains "completed" steps ≡ true
    → contains "scheduled" steps ≡ true
unfolding leads_to
completed_was_scheduled steps w c =
    walk-meets (λ s. contains s ("draft" ∷ "cancelled" ∷ [])) "scheduled" transitions "draft"
      "completed" steps refl refl refl w c

before-ok : (start duration : ℕ) → duration ≤ start → before start duration ≡ ok (start - duration)
unfolding before
before-ok start duration h = ground arith

-- The eight events of an appointment that starts at least a quarter of an hour after the first instant
-- are planned at 15, 15, 5 and 2 minutes before the start, at the start, and 2, 5 and 15 minutes after.
pub reminder_events_lem :
    (appointment_id : String) (start : ℕ)
    → minutes 15 ≤ start
    → (events : List ReminderEvent) × (reminder_events appointment_id start ≡ ok events)
      × (map (λ e. e.scheduled_at) events
          ≡ (start - minutes 15)
            ∷ (start - minutes 15)
            ∷ (start - minutes 5)
            ∷ (start - minutes 2)
            ∷ (start + minutes 0)
            ∷ (start + minutes 2)
            ∷ (start + minutes 5)
            ∷ (start + minutes 15)
            ∷ [])
unfolding reminder_events events_from
reminder_events_lem appointment_id start late =
    let e₁ = before-ok start (minutes 15) late in
    let e₂ = before-ok start (minutes 5) (omega (arith, late)) in
    let e₃ = before-ok start (minutes 2) (omega (arith, late)) in rw (e₁, e₂, e₃) (_, refl, refl)
