-- ===== src/Orders.antt =====
-- Approved orders (app/order_orchestration.py): the envelope of an order, the check before it is
-- dispatched, and the store of orders, commands and audit events. Instants are in microseconds since
-- the epoch, and SHA-256 of canonical JSON is an argument.
use codestra_middleware.Base.{
  ℕ, ◌≡◌, Bool, true, false, not, ◌&&◌, Option, none, some, List, [], ◌∷◌, String, ok, ◌>>=◌, ◌>>◌,
  raise_if, any, all, contains, string_eq, ◌==◌, leb, ⊤,
}
use codestra_middleware.Raised.{Outcome, value_error, http_exception}
use codestra_middleware.Json.{Value}
use codestra_middleware.Text.{starts_with}
pub mod Store
pub mod Dispatch
pub mod Records
pub mod Failures
pub mod Intake
pub mod Api
pub mod Approvals
pub mod Results
pub mod Reports
pub mod Tests

pub data OrderStatus : Type 0 where
  received validating validated approval_required approved rejected queued : OrderStatus
  dispatched_to_n8n running partially_completed completed failed_retryable : OrderStatus
  retry_scheduled failed_final dead_letter human_review cancelled expired : OrderStatus

abbrev pub allowed_workflows : List String
allowed_workflows =
    "CDST-ORDER-VALIDATE-V1" ∷ "CDST-ORDER-ROUTER-V1" ∷ "CDST-ORDER-EXECUTE-V1"
    ∷ "CDST-ORDER-SHIPPING-V1" ∷ "CDST-ORDER-FULFILLMENT-V1" ∷ "CDST-ORDER-CUSTOMER-SETUP-V1"
    ∷ "CDST-ORDER-SOCIAL-DRAFT-V1" ∷ "CDST-ORDER-SOCIAL-CAMPAIGN-V1" ∷ "CDST-ORDER-CALLBACK-V1"
    ∷ "CDST-ORDER-INTERNAL-REPORT-V1" ∷ "CDST-ORDER-RESULT-V1" ∷ "CDST-ORDER-FAILURE-V1"
    ∷ "CDST-ORDER-DEAD-LETTER-V1" ∷ "CDST-ORDER-RECONCILIATION-V1" ∷ []

abbrev pub allowed_actions : List String
allowed_actions =
    "validate_customer" ∷ "create_fulfillment_task" ∷ "request_shipping_quote" ∷ "schedule_pickup"
    ∷ "create_callback" ∷ "prepare_campaign_draft" ∷ "create_social_draft" ∷ "request_document"
    ∷ "generate_internal_report" ∷ "notify_internal_team" ∷ []

abbrev pub blocked_actions : List String
blocked_actions =
    "charge_payment_method" ∷ "send_customer_message" ∷ "place_external_call"
    ∷ "publish_social_post" ∷ "delete_record" ∷ "cancel_customer_service"
    ∷ "export_customer_database" ∷ []

pub record Approval : Type 0 where
  pub required : Bool
  pub status : String
  pub approved_by : Option String
  pub approved_at : Option ℕ
  pub content_hash : String

pub record OrderEnvelope : Type 0 where
  pub schema_version : String
  pub command_id : String
  pub event_id : String
  pub order_id : String
  pub order_type : String
  pub source_system : String
  pub organization_id : String
  pub customer_reference : String
  pub workflow_code : String
  pub workflow_version : String
  pub approval : Approval
  pub approval_required : Option Bool
  pub approval_status : Option String
  pub approval_reference : Option String
  pub approval_content_hash : Option String
  pub payload : Value
  pub requested_actions : List String
  pub approved_actions : Option (List String)
  pub constraints : Value
  pub idempotency_key : String
  pub correlation_id : String
  pub trace_id : String
  pub requested_at : ℕ
  pub expires_at : ℕ

-- What the content hash covers: all but the approval. Its instants are numbers: the offset that they are
-- written with is lost.
pub record Content : Type 0 where
  pub schema_version : String
  pub command_id : String
  pub event_id : String
  pub order_id : String
  pub order_type : String
  pub source_system : String
  pub organization_id : String
  pub customer_reference : String
  pub workflow_code : String
  pub workflow_version : String
  pub payload : Value
  pub requested_actions : List String
  pub constraints : Value
  pub idempotency_key : String
  pub correlation_id : String
  pub trace_id : String
  pub requested_at : ℕ
  pub expires_at : ℕ

abbrev pub content : OrderEnvelope → Content
content o = record {
  schema_version = o.schema_version;
  command_id = o.command_id;
  event_id = o.event_id;
  order_id = o.order_id;
  order_type = o.order_type;
  source_system = o.source_system;
  organization_id = o.organization_id;
  customer_reference = o.customer_reference;
  workflow_code = o.workflow_code;
  workflow_version = o.workflow_version;
  payload = o.payload;
  requested_actions = o.requested_actions;
  constraints = o.constraints;
  idempotency_key = o.idempotency_key;
  correlation_id = o.correlation_id;
  trace_id = o.trace_id;
  requested_at = o.requested_at;
  expires_at = o.expires_at;
}

-- `validate_time_order`
abbrev pub validate_time_order : OrderEnvelope → Outcome OrderEnvelope
validate_time_order o = do
  raise_if (leb o.expires_at o.requested_at) (value_error "expires_at must be after requested_at")
  ok o

abbrev or_some {ℓ} : {A : Type ℓ} → Option A → A → Option A
or_some (some a) b = some a
or_some none b = some b

-- `normalize_approval_fields`
abbrev pub normalize_approval_fields : OrderEnvelope → OrderEnvelope
normalize_approval_fields o = record o {
  approval_required = or_some o.approval_required o.approval.required;
  approval_status = or_some o.approval_status o.approval.status;
  approval_content_hash = or_some o.approval_content_hash o.approval.content_hash;
  approved_actions = or_some o.approved_actions o.requested_actions;
}

-- The settings that the check reads.
pub record Settings : Type 0 where
  pub order_orchestration_enabled : Bool
  pub n8n_order_dispatch_enabled : Bool

-- `_is_synthetic`
abbrev pub is_synthetic : OrderEnvelope → Bool
is_synthetic o = starts_with "CODESTRA-INTEGRATION-TEST-" o.order_id

unfoldable pub validate_for_dispatch : (Content → String) → Settings → ℕ → OrderEnvelope → Outcome ⊤
validate_for_dispatch hash settings now o = do
  raise_if (leb o.expires_at now) (http_exception 422 "order has expired")
  raise_if (not (contains o.workflow_code allowed_workflows))
      (http_exception 422 "workflow code is not allowlisted")
  raise_if (any (λ action. contains action blocked_actions) o.requested_actions)
      (http_exception 422 "requested action is blocked")
  raise_if (not (all (λ action. contains action allowed_actions) o.requested_actions))
      (http_exception 422 "requested action is not allowlisted")
  raise_if (o.approval.required && not (o.approval.status == "approved"))
      (http_exception 409 "approval is required before dispatch")
  raise_if (not (o.approval.content_hash == hash (content o)))
      (http_exception 409 "approval content hash does not match order")
  raise_if (not (is_synthetic o) && not settings.order_orchestration_enabled)
      (http_exception 503 "order orchestration is disabled")
  raise_if (not settings.n8n_order_dispatch_enabled && not (is_synthetic o))
      (http_exception 503 "n8n order dispatch is disabled")
