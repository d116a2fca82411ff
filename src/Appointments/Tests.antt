-- ===== src/Appointments/Tests.antt =====
-- The theorems on app/core/appointments.py at one appointment and one claim.
use codestra_middleware.Base.{List, [], ◌∷◌, String, string_eq}
use codestra_middleware.Appointments.Claims.{Claim}

abbrev steps : List String
steps = "scheduled" ∷ "reminder_pending" ∷ "due" ∷ "in_progress" ∷ "completed" ∷ []

abbrev hash : String → String
hash s = s

abbrev booked : Claim String
booked = record { key = "k"; body = "b"; result = "first" }

abbrev again : Claim String
again = record { key = "k"; body = "b"; result = "second" }
