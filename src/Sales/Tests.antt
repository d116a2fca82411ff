-- ===== src/Sales/Tests.antt =====
-- The theorem on app/sales/compliance.py at one snapshot.
use codestra_middleware.Base.{◌≡◌, ◌↔◌, true, false, not}
use codestra_middleware.Sales.{ComplianceSnapshot, status_eligible, evaluate}
use codestra_middleware.Sales.Compliance.{IsClear, evaluate_iff}

abbrev snapshot : ComplianceSnapshot
snapshot = record {
  tenant_id = "acme";
  campaign_id = "camp";
  available = true;
  global_dnc = false;
  tenant_dnc = false;
  campaign_dnc = false;
  internal_suppression = false;
  email_suppressed = false;
  phone_suppressed = false;
  opted_out = false;
  legal_restriction = false;
  consent = "GRANTED";
  channel_eligible = true;
}

evaluate_iff_example :
    (((evaluate snapshot "acme" "camp").status ≡ status_eligible) ↔ (
      (snapshot.tenant_id ≡ "acme")
      × (snapshot.campaign_id ≡ "camp")
      × (snapshot.consent ≡ "GRANTED")
      × IsClear snapshot))
    × ((evaluate snapshot "acme" "camp").status ≡ status_eligible
        → ((evaluate snapshot "acme" "camp").is_blocked ≡ false)
          × ((evaluate snapshot "acme" "camp").needs_review ≡ not true))
evaluate_iff_example = evaluate_iff snapshot "acme" "camp"
