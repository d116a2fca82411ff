-- ===== src/Telephony.antt =====
-- app/core/telephony.py: the audit of an extension before it is allocated, and the states of a
-- provisioning saga. The hash of the evidence is left out.
use codestra_middleware.Base.{
  ℕ, ◌≡◌, Bool, true, false, not, ◌&&◌, ◌||◌, Option, none, some, List, [], ◌∷◌, map, String,
  if◌then◌else◌, any, contains, select, nat_eq, string_eq, ◌==◌, Dict, lookup, lookup_or,
}
use codestra_middleware.Text.{upper}
use codestra_middleware.Transitions.{Table, allowed}
use codestra_middleware.Controller.Tasks.{sorted_set}
pub mod Evidence
pub mod Audit
pub mod Saga
pub mod Tests

pub data ExtensionState : Type 0 where
  available reserved assigned active cooldown historical_hold collision : ExtensionState
  excluded unknown_requires_review : ExtensionState

-- `sorted(AUTHORITATIVE_SOURCES)`
abbrev pub authoritative_sources : List String
authoritative_sources =
    "asterisk_channel" ∷ "call_history" ∷ "chan_sip_peer" ∷ "configuration_include" ∷ "cooldown"
    ∷ "deprovisioning_record" ∷ "dialplan" ∷ "historical_reservation" ∷ "middleware_reservation"
    ∷ "odoo_assignment" ∷ "odoo_provisioning_request" ∷ "pjsip_aor" ∷ "pjsip_auth" ∷ "pjsip_contact"
    ∷ "pjsip_endpoint" ∷ "postgres_lease" ∷ "redis_lease" ∷ "registration" ∷ "static_queue"
    ∷ "vicidial_phone" ∷ "vicidial_session" ∷ "vicidial_user" ∷ "voicemail" ∷ []

abbrev pub active_markers : List String
active_markers = "ACTIVE" ∷ []

abbrev pub assigned_markers : List String
assigned_markers = "ASSIGNED" ∷ "PRESENT" ∷ []

abbrev pub reserved_markers : List String
reserved_markers = "RESERVED" ∷ "LEASED" ∷ []

abbrev pub historical_markers : List String
historical_markers = "HISTORICAL_HOLD" ∷ "AMBIGUOUS" ∷ []

abbrev pub collision_markers : List String
collision_markers = "COLLISION" ∷ "CONFLICT" ∷ []

abbrev pub clear_values : List String
clear_values = "AVAILABLE" ∷ "ABSENT" ∷ "CLEAR" ∷ "NONE" ∷ []

pub record AuditResult : Type 0 where
  pub extension : ℕ
  pub classification : ExtensionState
  pub missing_sources : List String
  pub collision_sources : List String

abbrev upper_value : String × String → String × String
upper_value (key, value) = (key, upper value)

-- The evidence with its values in upper case.
abbrev pub normalized : Dict String String → Dict String String
normalized evidence = map upper_value evidence

unfoldable pub missing : Dict String String → List String
missing evidence =
    select (λ source. not (contains source (map (λ e. e.0) evidence))) authoritative_sources

unfoldable pub collisions : Dict String String → List String
collisions evidence =
    sorted_set (map (λ e. e.0) (select (λ e. not (contains e.1 clear_values)) evidence))

-- One of the sources that collide carries one of the markers.
unfoldable pub has_marker : List String → Dict String String → Bool
has_marker markers evidence =
    any (λ key. contains (lookup_or key "" evidence) markers) (collisions evidence)

abbrev pub is_clear : Option String → Bool
is_clear none = false
is_clear (some value) = contains value clear_values

abbrev pub is_none {ℓ} : {A : Type ℓ} → List A → Bool
is_none [] = true
is_none (x ∷ xs) = false

-- The classification, on evidence in upper case.
unfoldable pub classify : ℕ → Dict String String → ExtensionState
classify extension evidence =
    if contains extension (1001 ∷ 6101 ∷ [])
    then excluded
    else if not (is_none (missing evidence))
    then unknown_requires_review
    else if has_marker active_markers evidence
    then active
    else if has_marker collision_markers evidence
    then collision
    else if has_marker historical_markers evidence
    then historical_hold
    else if not (is_clear (lookup "cooldown" evidence))
    then cooldown
    else if has_marker reserved_markers evidence
    then reserved
    else if has_marker assigned_markers evidence
    then assigned
    else available

unfoldable pub audit_extension : ℕ → Dict String String → AuditResult
audit_extension extension evidence = record {
  extension = extension;
  classification = classify extension (normalized evidence);
  missing_sources = missing (normalized evidence);
  collision_sources = collisions (normalized evidence);
}

abbrev pub saga_transitions : Table
saga_transitions =
    ("DRAFT", "PENDING_APPROVAL" ∷ [])
    ∷ ("PENDING_APPROVAL", "APPROVED" ∷ "FAILED" ∷ [])
    ∷ ("APPROVED", "INVENTORY_CHECK" ∷ "FAILED" ∷ [])
    ∷ ("INVENTORY_CHECK", "RESERVED" ∷ "FAILED" ∷ [])
    ∷ ("RESERVED", "PROVISIONING" ∷ "ROLLED_BACK" ∷ [])
    ∷ ("PROVISIONING", "DISABLED_READY" ∷ "FAILED" ∷ "ROLLED_BACK" ∷ [])
    ∷ ("DISABLED_READY", "ACTIVATION_PENDING" ∷ "SUSPENDING" ∷ "DEPROVISIONING" ∷ [])
    ∷ ("ACTIVATION_PENDING", "ACTIVE" ∷ "FAILED" ∷ "ROLLED_BACK" ∷ [])
    ∷ ("ACTIVE", "SUSPENDING" ∷ "DEPROVISIONING" ∷ [])
    ∷ ("FAILED", "ROLLED_BACK" ∷ [])
    ∷ ("SUSPENDING", "SUSPENDED" ∷ "FAILED" ∷ [])
    ∷ ("SUSPENDED", "ACTIVATION_PENDING" ∷ "DEPROVISIONING" ∷ [])
    ∷ ("DEPROVISIONING", "COOLDOWN" ∷ "FAILED" ∷ [])
    ∷ ("COOLDOWN", [])
    ∷ ("ROLLED_BACK", [])
    ∷ []

unfoldable pub transition_allowed : String → String → Bool
transition_allowed current target = allowed saga_transitions current target
