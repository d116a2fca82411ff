-- ===== src/Policy.antt =====
-- app/core/policy_engine.py: the policy evaluator of the API and the workers. A request keeps the fields
-- that `evaluate` reads; the times of its calling window are naive. `data_freshness`, the decision's
-- identifier and the policy version are left out of the result.
pub mod Allowance
pub mod Gaps
mod Tests
use mathlib.Core.Option
use codestra_middleware.Base.{
  ℕ, ◌+◌, ◌-◌, ◌*◌, ◌%◌, Bool, true, false, not, ◌&&◌, ◌||◌, List, [], ◌∷◌, ◌++◌, Option, none,
  some, String, ok, err, ◌>>=◌, ltb, leb, nat_beq, ◌==◌, string_eq, select, contains, map, ℤ, pos,
  negsuc, if◌then◌else◌,
}
use codestra_middleware.Clock.{DateTime, ZoneDatabase, seconds, minutes, hours, days, before}
use codestra_middleware.Raised.{Outcome, overflow_error}
use codestra_middleware.Text.{is_empty}

pub data DecisionAction : Type 0 where
  voice sms email callback transfer recording sync : DecisionAction

-- `f"{request.action}_ineligible"`
abbrev pub ineligible : DecisionAction → String
ineligible voice = "voice_ineligible"
ineligible sms = "sms_ineligible"
ineligible email = "email_ineligible"
ineligible callback = "callback_ineligible"
ineligible transfer = "transfer_ineligible"
ineligible recording = "recording_ineligible"
ineligible sync = "sync_ineligible"

pub record PolicyRequest : Type 0 where
  pub correlation_id : String
  pub action : DecisionAction
  pub subject : String
  pub resource : String
  pub evaluated_at : Option DateTime
  pub consent_allowed : Option Bool
  pub consent_observed_at : Option DateTime
  pub dnc_suppressed : Option Bool
  pub dnc_observed_at : Option DateTime
  pub customer_timezone : Option String
  pub jurisdiction : Option String
  pub calling_window_start : Option ℕ
  pub calling_window_end : Option ℕ
  pub attempts : Option ℕ
  pub max_attempts : Option ℕ
  pub last_attempt_at : Option DateTime
  pub minimum_spacing_seconds : Option ℕ
  pub channel_eligible : Option Bool
  pub business_unit : Option String
  pub allowed_business_units : Option (List String)
  pub campaign : Option String
  pub allowed_campaigns : Option (List String)
  pub agent : Option String
  pub allowed_agents : Option (List String)
  pub callback_allowed : Option Bool
  pub transfer_allowed : Option Bool
  pub recording_required : Option Bool
  pub disclosure_present : Option Bool
  pub emergency_kill_switch : Option Bool
  pub shadow_mode : Bool

pub record PolicyResult : Type 0 where
  pub correlation_id : String
  pub action : DecisionAction
  pub subject : String
  pub resource : String
  pub allow : Bool
  pub enforced : Bool
  pub reason_codes : List String
  pub evaluated_at : ℕ
  pub expiration : ℕ

abbrev pub is_none {ℓ} : {A : Type ℓ} → Option A → Bool
is_none none = true
is_none (some _) = false

-- `value is True`
abbrev pub is_true : Option Bool → Bool
is_true (some true) = true
is_true _ = false

-- `value is False`
abbrev pub is_false : Option Bool → Bool
is_false (some false) = true
is_false _ = false

abbrev pub is_aware : DateTime → Bool
is_aware t = not (is_none t.utc_offset)

unfoldable pub in_window : ℕ → ℕ → ℕ → Bool
in_window current start end =
    if nat_beq start end
    then false
    else if ltb start end
    then leb start current && ltb current end
    else leb start current || ltb current end

abbrev pub max_freshness : ℕ
max_freshness = hours 24

-- `datetime.max`
abbrev pub latest : ℕ
latest = 315537897599999999

-- `instant + duration`, which raises above `datetime.max`.
unfoldable pub later : ℕ → ℕ → Outcome ℕ
later instant duration =
    if ltb latest (instant + duration) then err overflow_error else ok (instant + duration)

-- The wall clock at an offset from UTC.
unfoldable pub shifted : ℕ → ℤ → Outcome ℕ
shifted now (pos n) = later now (seconds n)
shifted now (negsuc n) = before now (seconds (n + 1))

-- `local.timetz()`: the time of day where the customer is, or that there is no such time zone.
unfoldable pub local_time : ZoneDatabase → ℕ → String → Outcome (Option ℕ)
local_time zones now name = elim (zones name) [
  | none ↦ ok none
  | some offset ↦ shifted now (offset now) >>= λ local. ok (some (local % days 1))
]

abbrev pub Check : Type 0
Check = Bool × String

abbrev pub is_stale : ℕ → Option DateTime → Bool
is_stale now none = false
is_stale now (some t) = is_aware t && (ltb now t.instant || ltb (t.instant + max_freshness) now)

-- A value that is given, but is not among those that are allowed.
abbrev pub is_outside : Option String → Option (List String) → Bool
is_outside (some x) (some xs) = not (contains x xs)
is_outside _ _ = false

abbrev pub is_callback : DecisionAction → Bool
is_callback callback = true
is_callback _ = false

abbrev pub is_transfer : DecisionAction → Bool
is_transfer transfer = true
is_transfer _ = false

abbrev pub is_recording : DecisionAction → Bool
is_recording recording = true
is_recording _ = false

unfoldable pub attempt_check : Option ℕ → Option ℕ → Check
attempt_check (some attempts) (some limit) = (leb limit attempts, "attempt_limit_reached")
attempt_check _ _ = (true, "missing_attempt_limit_data")

unfoldable pub spacing_check : ℕ → Option ℕ → Option DateTime → Check
spacing_check now none t = (true, "missing_attempt_spacing_data")
spacing_check now (some spacing) none = (false, "minimum_attempt_spacing")
spacing_check now (some spacing) (some t) =
    if is_aware t
    then (ltb now (t.instant + seconds spacing), "minimum_attempt_spacing")
    else (true, "invalid_last_attempt_time")

-- The checks before the time zone, in the order of their reasons.
unfoldable pub checks : ℕ → PolicyRequest → List Check
unfolding attempt_check spacing_check
checks now r =
    (is_none r.consent_allowed || is_none r.consent_observed_at, "missing_consent_data")
    ∷ (is_none r.dnc_suppressed || is_none r.dnc_observed_at, "missing_dnc_data")
    ∷ (is_none r.customer_timezone, "missing_timezone_data")
    ∷ (is_none r.jurisdiction, "missing_jurisdiction_data")
    ∷ (is_none r.channel_eligible, "missing_channel_data")
    ∷ (is_none r.business_unit || is_none r.allowed_business_units, "missing_business_unit_data")
    ∷ (is_none r.campaign || is_none r.allowed_campaigns, "missing_campaign_data")
    ∷ (is_none r.agent || is_none r.allowed_agents, "missing_agent_data")
    ∷ (is_none r.emergency_kill_switch, "missing_kill_switch_data")
    ∷ (is_stale now r.consent_observed_at, "stale_consent_data")
    ∷ (is_stale now r.dnc_observed_at, "stale_dnc_data")
    ∷ (is_true r.emergency_kill_switch, "emergency_kill_switch")
    ∷ (is_false r.consent_allowed, "consent_denied")
    ∷ (is_true r.dnc_suppressed, "dnc_suppressed")
    ∷ (is_false r.channel_eligible, ineligible r.action)
    ∷ (is_outside r.business_unit r.allowed_business_units, "business_unit_denied")
    ∷ (is_outside r.campaign r.allowed_campaigns, "campaign_denied")
    ∷ (is_outside r.agent r.allowed_agents, "agent_denied")
    ∷ (is_callback r.action && not (is_true r.callback_allowed), "callback_denied")
    ∷ (is_transfer r.action && not (is_true r.transfer_allowed), "transfer_denied")
    ∷ (
      is_recording r.action && is_true r.recording_required && not (is_true r.disclosure_present),
      "recording_disclosure_missing",
    )
    ∷ attempt_check r.attempts r.max_attempts
    ∷ spacing_check now r.minimum_spacing_seconds r.last_attempt_at
    ∷ (is_none r.calling_window_start || is_none r.calling_window_end, "missing_calling_hours_data")
    ∷ []

abbrev pub is_closed : ℕ → Option ℕ → Option ℕ → Bool
is_closed local (some start) (some end) = not (in_window local start end)
is_closed local _ _ = false

unfoldable pub hours_check : Option ℕ → Option ℕ → Option ℕ → Check
hours_check start end none = (true, "invalid_customer_timezone")
hours_check start end (some local) = (is_closed local start end, "outside_calling_hours")

unfoldable pub zone_checks :
    ZoneDatabase → ℕ → Option ℕ → Option ℕ → Option String → Outcome (List Check)
unfolding hours_check
zone_checks zones now start end none = ok []
zone_checks zones now start end (some name) =
    if is_empty name
    then ok []
    else local_time zones now name >>= λ local. ok (hours_check start end local ∷ [])

-- The reasons of the checks that fail.
unfoldable pub reasons : List Check → List String
reasons [] = []
reasons ((true, reason) ∷ cs) = reason ∷ reasons cs
reasons ((false, reason) ∷ cs) = reasons cs

abbrev pub or_allowed : List String → List String
or_allowed [] = "allowed" ∷ []
or_allowed reason_codes = reason_codes

abbrev pub is_null {ℓ} : {A : Type ℓ} → List A → Bool
is_null [] = true
is_null (x ∷ xs) = false

-- `request.evaluated_at or datetime.now(timezone.utc)`; a naive instant is taken for UTC.
abbrev pub instant_of : ℕ → Option DateTime → ℕ
instant_of clock none = clock
instant_of clock (some t) = t.instant

abbrev pub decision : PolicyRequest → ℕ → ℕ → List String → PolicyResult
decision r now expiration codes = record {
  correlation_id = r.correlation_id;
  action = r.action;
  subject = r.subject;
  resource = r.resource;
  allow = is_null codes;
  enforced = not r.shadow_mode;
  reason_codes = or_allowed codes;
  evaluated_at = now;
  expiration = expiration;
}

unfoldable pub evaluate : ZoneDatabase → ℕ → PolicyRequest → Outcome PolicyResult
evaluate zones clock r = do
  let now = instant_of clock r.evaluated_at
  last ← zone_checks zones now r.calling_window_start r.calling_window_end r.customer_timezone
  expiration ← later now (minutes 5)
  ok (decision r now expiration (reasons (checks now r ++ last)))
