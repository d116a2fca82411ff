-- ===== src/Sales.antt =====
-- The compliance gate of app/sales/compliance.py, with the gates of app/sales/contracts.py.
use codestra_middleware.Base.{
  Bool, true, false, not, ◌||◌, Option, none, some, List, [], ◌∷◌, String, if◌then◌else◌, string_eq,
  ◌==◌,
}
pub mod Compliance
pub mod Tests

pub data GateState : Type 0 where
  not_checked eligible blocked review_required dependency_unavailable : GateState

pub record Gates : Type 0 where
  pub global_dnc : GateState
  pub campaign_dnc : GateState
  pub suppression : GateState
  pub consent : GateState
  pub channel_eligibility : GateState

pub data ComplianceStatus : Type 0 where
  status_eligible blocked_global_dnc blocked_campaign_dnc blocked_internal_suppression :
      ComplianceStatus
  blocked_consent_withdrawn review_consent_unknown status_unavailable : ComplianceStatus

pub record ComplianceSnapshot : Type 0 where
  pub tenant_id : String
  pub campaign_id : String
  pub available : Bool
  pub global_dnc : Bool
  pub tenant_dnc : Bool
  pub campaign_dnc : Bool
  pub internal_suppression : Bool
  pub email_suppressed : Bool
  pub phone_suppressed : Bool
  pub opted_out : Bool
  pub legal_restriction : Bool
  pub consent : String
  pub channel_eligible : Bool

pub record ComplianceDecision : Type 0 where
  pub status : ComplianceStatus
  pub gates : Gates
  pub reasons : List String
  pub is_blocked : Bool
  pub needs_review : Bool

abbrev pub decision : ComplianceStatus → Gates → String → Bool → Bool → ComplianceDecision
decision status gates reason is_blocked needs_review = record {
  status = status;
  gates = gates;
  reasons = reason ∷ [];
  is_blocked = is_blocked;
  needs_review = needs_review;
}

-- `_unavailable`
unfoldable pub unavailable : String → ComplianceDecision
unavailable reason =
    let state = dependency_unavailable in
    let gates : Gates = record {
      global_dnc = state;
      campaign_dnc = state;
      suppression = state;
      consent = state;
      channel_eligibility = state;
    } in
    decision status_unavailable gates reason true true

abbrev pub gate : Bool → GateState
gate stop = if stop then blocked else eligible

abbrev pub gates_of : ComplianceSnapshot → Gates
gates_of s = record {
  global_dnc = gate s.global_dnc;
  campaign_dnc = gate s.campaign_dnc;
  suppression = gate s.internal_suppression;
  consent =
      if s.consent == "WITHDRAWN"
      then blocked
      else if s.consent == "GRANTED"
      then eligible
      else review_required;
  channel_eligibility = if s.channel_eligible then eligible else review_required;
}

-- The first suppression that is active.
unfoldable pub first_active : List (Bool × String) → Option String
first_active [] = none
first_active ((active, reason) ∷ rest) =
    let later = first_active rest in if active then some reason else later

abbrev pub suppressions : ComplianceSnapshot → List (Bool × String)
suppressions s =
    (s.email_suppressed, "EMAIL_SUPPRESSED")
    ∷ (s.phone_suppressed, "PHONE_SUPPRESSED")
    ∷ (s.opted_out, "OPTED_OUT")
    ∷ (s.legal_restriction, "LEGAL_RESTRICTION")
    ∷ (s.internal_suppression, "INTERNAL_SUPPRESSION")
    ∷ []

-- The decision once nothing is suppressed.
abbrev pub by_consent : ComplianceSnapshot → ComplianceDecision
by_consent s =
    if s.consent == "WITHDRAWN"
    then decision blocked_consent_withdrawn (gates_of s) "CONSENT_DENIED" true false
    else if not (s.consent == "GRANTED")
    then decision review_consent_unknown (gates_of s) "CONSENT_UNKNOWN" false true
    else decision status_eligible (gates_of s) "COMPLIANCE_ELIGIBLE" false (not s.channel_eligible)

abbrev pub by_suppression : ComplianceSnapshot → Option String → ComplianceDecision
by_suppression s (some reason) =
    decision blocked_internal_suppression (gates_of s) reason true false
by_suppression s none = by_consent s

unfoldable pub evaluate : ComplianceSnapshot → String → String → ComplianceDecision
evaluate s tenant_id campaign_id =
    if not (s.tenant_id == tenant_id) || not (s.campaign_id == campaign_id)
    then unavailable "COMPLIANCE_SCOPE_MISMATCH"
    else if not s.available
    then unavailable "COMPLIANCE_DEPENDENCY_UNAVAILABLE"
    else if s.global_dnc
    then decision blocked_global_dnc (gates_of s) "GLOBAL_DNC" true false
    else if s.tenant_dnc
    then decision blocked_internal_suppression (gates_of s) "TENANT_DNC" true false
    else if s.campaign_dnc
    then decision blocked_campaign_dnc (gates_of s) "CAMPAIGN_DNC" true false
    else by_suppression s (first_active (suppressions s))
