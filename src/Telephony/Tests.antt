-- ===== src/Telephony/Tests.antt =====
-- The theorems on app/core/telephony.py at one extension and one saga.
use codestra_middleware.Base.{
  ℕ, ◌≡◌, ◌≢◌, ◌↔◌, All, refl, [], ◌∷◌, map, String, nat_eq, string_eq, Dict, lookup, ◌==◌,
  if◌then◌else◌,
}
use codestra_middleware.Text.{upper}
use codestra_middleware.Controller.Tasks.{sorted_set}
use codestra_middleware.Telephony.{
  available, authoritative_sources, audit_extension, classify, missing, collisions, has_marker,
}
use codestra_middleware.Telephony.Evidence.{Reports, HasCooledDown, ShowsNone}
use codestra_middleware.Telephony.Audit.{audit_extension-available}

-- Every source reports that the extension is free, but one that reports a failure of its own.
abbrev report : String → String × String
report source = (source, if source == "registration" then "error" else "absent")

abbrev evidence : Dict String String
evidence = map report authoritative_sources

audit_extension-available_example : ((audit_extension 2001 evidence).classification ≡ available) ↔ (
    (◌≢◌ {A = ℕ} 2001 1001)
    × (◌≢◌ {A = ℕ} 2001 6101)
    × All (Reports evidence) (
        "asterisk_channel" ∷ "call_history" ∷ "chan_sip_peer" ∷ "configuration_include" ∷ "cooldown"
        ∷ "deprovisioning_record" ∷ "dialplan" ∷ "historical_reservation" ∷ "middleware_reservation"
        ∷ "odoo_assignment" ∷ "odoo_provisioning_request" ∷ "pjsip_aor" ∷ "pjsip_auth"
        ∷ "pjsip_contact" ∷ "pjsip_endpoint" ∷ "postgres_lease" ∷ "redis_lease" ∷ "registration"
        ∷ "static_queue" ∷ "vicidial_phone" ∷ "vicidial_session" ∷ "vicidial_user" ∷ "voicemail"
        ∷ [])
    × HasCooledDown evidence
    × ShowsNone
        ("ACTIVE" ∷ "COLLISION" ∷ "CONFLICT" ∷ "HISTORICAL_HOLD" ∷ "AMBIGUOUS" ∷ "RESERVED"
          ∷ "LEASED" ∷ "ASSIGNED" ∷ "PRESENT" ∷ [])
        evidence)
audit_extension-available_example = audit_extension-available 2001 evidence

-- A source that fails counts as clear.
error_is_clear : (audit_extension 2001 evidence).classification ≡ available
unfolding audit_extension classify missing has_marker collisions upper
    codestra_middleware.Controller.Tasks.sorted_set lookup
error_is_clear = refl
