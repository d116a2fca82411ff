-- ===== src/Policy/Tests.antt =====
-- Concrete policy requests (app/core/policy_engine.py).
use codestra_middleware.Base.{
  ℕ, ◌+◌, ◌-◌, ◌≡◌, ◌↔◌, refl, true, false, [], ◌∷◌, none, some, String, ok, pos, string_eq,
}
use codestra_middleware.Clock.{DateTime, ZoneDatabase, hours, minutes, days}
use codestra_middleware.Policy.{
  voice, PolicyRequest, PolicyResult, in_window, later, shifted, local_time, attempt_check,
  spacing_check, checks, hours_check, zone_checks, reasons, decision, evaluate,
}
use codestra_middleware.Policy.Allowance.{IsAllowed, allow_iff}
use codestra_middleware.Policy.Gaps.{unchecked, unchecked_allowed}

abbrev zones : ZoneDatabase
zones name = elim name [ String.[] ↦ none | String.◌∷◌ c s ↦ some (λ now. pos 3600) ]

abbrev at : ℕ → DateTime
at t = record { instant = t; utc_offset = some (pos 0) }

abbrev noon : ℕ
noon = days 700 + hours 12

abbrev request : PolicyRequest
request = record {
  correlation_id = "c";
  action = voice;
  subject = "s";
  resource = "r";
  evaluated_at = some (at noon);
  consent_allowed = some true;
  consent_observed_at = some (at (noon - hours 20));
  dnc_suppressed = some false;
  dnc_observed_at = some (at (noon - hours 1));
  customer_timezone = some "Europe/Rome";
  jurisdiction = some "IT";
  calling_window_start = some (hours 9);
  calling_window_end = some (hours 18);
  attempts = some 1;
  max_attempts = some 3;
  last_attempt_at = some (at (noon - hours 2));
  minimum_spacing_seconds = some 3600;
  channel_eligible = some true;
  business_unit = some "TL";
  allowed_business_units = some ("DEV" ∷ "TL" ∷ []);
  campaign = some "TL-GENERAL";
  allowed_campaigns = some ("TL-GENERAL" ∷ []);
  agent = some "a";
  allowed_agents = some ("a" ∷ []);
  callback_allowed = none;
  transfer_allowed = none;
  recording_required = none;
  disclosure_present = none;
  emergency_kill_switch = some false;
  shadow_mode = false;
}

abbrev allowed_result : PolicyResult
allowed_result = decision request noon (noon + minutes 5) []

request_runs : evaluate zones 0 request ≡ ok allowed_result
unfolding evaluate checks zone_checks local_time shifted later in_window hours_check reasons
    attempt_check spacing_check
request_runs = refl

allow_iff_example : (allowed_result.allow ≡ true) ↔ IsAllowed zones noon request
allow_iff_example = allow_iff zones 0 request allowed_result request_runs

abbrev years_ago : DateTime
years_ago = record { instant = 0; utc_offset = none }

unchecked_allowed_example :
    (s : PolicyResult) × (evaluate zones 0 (unchecked years_ago (hours 1) (hours 2) request) ≡ ok s)
    × (s.allow ≡ true)
unchecked_allowed_example =
    unchecked_allowed zones 0 request allowed_result years_ago (hours 1) (hours 2) request_runs refl
      refl
