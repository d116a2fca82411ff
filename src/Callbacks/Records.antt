-- ===== src/Callbacks/Records.antt =====
-- The rows of app/db/models.py that the callback API keeps, its request bodies and its caller
-- (app/api/v1/callbacks.py). UUIDs are texts; the two time stamps that the database fills in by
-- itself (`created_at`, `updated_at`) and the outbox columns of an event are left out.
use codestra_middleware.Base.{ℕ, Bool, Option, List, String, Dict}
use codestra_middleware.Json.{Value}
use codestra_middleware.Clock.{DateTime}

pub record CallbackRecord : Type 0 where
  pub id : String
  pub tenant_id : String
  pub campaign_id : String
  pub contact_id : Option String
  pub lead_id : Option String
  pub opportunity_id : Option String
  pub original_call_id : Option String
  pub original_linkedid : Option String
  pub assigned_agent_id : Option String
  pub assigned_user_id : Option String
  pub assigned_team_id : Option String
  pub supervisor_id : Option String
  pub phone_number : String
  pub normalized_phone : String
  pub scheduled_at : ℕ
  pub customer_timezone : String
  pub priority : String
  pub reason : String
  pub notes : String
  pub state : String
  pub desired_state : String
  pub actual_state : String
  pub reminder_email_enabled : Bool
  pub reminder_popup_enabled : Bool
  pub email_reminder_1_at : Option ℕ
  pub email_reminder_2_at : Option ℕ
  pub popup_reminder_at : Option ℕ
  pub attempt_count : ℕ
  pub max_attempts : ℕ
  pub last_attempt_at : Option ℕ
  pub next_attempt_at : Option ℕ
  pub completed_at : Option ℕ
  pub cancelled_at : Option ℕ
  pub completion_disposition : Option String
  pub completion_notes : Option String
  pub correlation_id : String
  pub idempotency_key : String
  pub request_hash : String
  pub version : ℕ
  pub sync_state : String
  pub compliance_json : Dict String Bool
  pub context_json : Value
  pub created_by : String

pub record CallbackEvent : Type 0 where
  pub id : String
  pub callback_id : String
  pub tenant_id : String
  pub campaign_id : String
  pub event_type : String
  pub version : ℕ
  pub idempotency_key : String
  pub correlation_id : String
  pub actor_id : String
  pub payload_json : Value

pub record CallbackDelivery : Type 0 where
  pub id : String
  pub callback_id : String
  pub callback_version : ℕ
  pub channel : String
  pub stage : String
  pub idempotency_key : String
  pub status : String
  pub message_id : Option String
  pub provider_message_id : Option String
  pub attempt_count : ℕ
  pub last_error_code : Option String
  pub next_attempt_at : Option ℕ

-- The tables that a request reads and writes in one transaction.
pub record Database : Type 0 where
  pub rows : List CallbackRecord
  pub events : List CallbackEvent
  pub deliveries : List CallbackDelivery

-- The identity that `principal` has validated.
pub record Principal : Type 0 where
  pub actor : String
  pub tenant : String
  pub campaigns : List String
  pub role : String
  pub teams : List String

pub record Change : Type 0 where
  pub expected_version : ℕ
  pub scheduled_at : Option DateTime
  pub customer_timezone : Option String
  pub assigned_agent_id : Option String
  pub assigned_team_id : Option String
  pub reason : Option String
  pub notes : Option String
  pub completion_disposition : Option String
  pub completion_notes : Option String
  pub snooze_minutes : Option ℕ

pub record DeliveryResult : Type 0 where
  pub callback_version : ℕ
  pub channel : String
  pub stage : String
  pub status : String
  pub message_id : Option String
  pub provider_message_id : Option String
  pub error_code : Option String

-- The target that each route passes to `mutate`; `PATCH` passes `updated`.
pub data Target : Type 0 where
  snoozed rescheduled cancelled completed in_progress reassigned updated : Target

abbrev pub target_name : Target → String
target_name snoozed = "SNOOZED"
target_name rescheduled = "RESCHEDULED"
target_name cancelled = "CANCELLED"
target_name completed = "COMPLETED"
target_name in_progress = "IN_PROGRESS"
target_name reassigned = "REASSIGNED"
target_name updated = "UPDATED"
