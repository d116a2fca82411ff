-- ===== src/AiJobs.antt =====
-- app/core/ai_jobs.py and app/core/ai_orchestration.py: the queue of AI jobs, with its leases and
-- fencing tokens. The tables are the fields of `Queue`; a row keeps the columns that an operation
-- reads or changes, and the columns that are only copied (the command's payload, its limits) are in
-- `AiCommand`. An operation is one transaction. `now()` is an argument.
pub mod Profiles
pub mod Contracts
pub mod Creation
pub mod Leases
pub mod Admission
pub mod Details
pub mod Endings
pub mod Recovery
pub mod Moves
pub mod Effects
pub mod Sweeps
pub mod Arrivals
pub mod Runs
pub mod Histories
pub mod Attempts
pub mod Fencing
pub mod Decisions
pub mod Endstates
pub mod Reopened
pub mod Sanitizing
pub mod Readiness
pub mod Selection
pub mod Company
pub mod Claims
pub mod Tests
pub mod Approvals
use codestra_middleware.Base.{
  ℕ, ◌≡◌, Bool, true, false, List, [], ◌∷◌, Option, none, some, String, Dict, ltb, leb, ◌==◌,
  string_eq, insert, nat_beq, ◌&&◌, if◌then◌else◌,
}
use codestra_middleware.Json.{Value}

pub data JobState : Type 0 where
  queued available leased running retry_wait completed failed cancel_requested cancelled expired
        dead_letter approval_required approved rejected :
      JobState

-- A row of `ai_generation_jobs`, under its `id`.
pub record Job : Type 0 where
  pub organization_id : String
  pub workspace_id : String
  pub state : JobState
  pub model_profile : Option String
  pub request_sha256 : String
  pub request_message_id : Option String
  pub idempotency_key : String
  pub correlation_id : Option String
  pub priority : ℕ
  pub attempt_count : ℕ
  pub max_attempts : ℕ
  pub fencing_token : ℕ
  pub lease_owner : Option String
  pub lease_expires_at : Option ℕ
  pub next_attempt_at : ℕ
  pub cancel_requested_at : Option ℕ
  pub completed_at : Option ℕ
  pub failure_code : Option String
  pub output_bytes : ℕ
  pub deadline_at : Option ℕ
  pub created_at : ℕ
  pub updated_at : ℕ
  pub version : ℕ
  pub approval_needed : Bool

-- A row of `ai_job_attempts`.
pub record Attempt : Type 0 where
  pub job_id : String
  pub attempt_number : ℕ
  pub fencing_token : ℕ
  pub worker_id : String
  pub state : JobState
  pub safe_error_code : Option String
  pub finished_at : Option ℕ

-- A row of `ai_job_chunks`, under its job and its sequence number; `size` counts the bytes of the
-- content.
pub record Chunk : Type 0 where
  pub fencing_token : ℕ
  pub content : String
  pub size : ℕ

-- A row of `ai_job_dead_letters`, under its job.
pub record DeadLetter : Type 0 where
  pub organization_id : String
  pub workspace_id : String
  pub final_error_code : String
  pub attempt_count : ℕ
  pub max_attempts : ℕ
  pub safe_error_details : Dict String Value
  pub failed_at : ℕ
  pub correlation_id : String
  pub manual_retry_requires_new_approval : Bool
  pub recovery_status : String

pub data ApprovalState : Type 0 where
  pending approved rejected : ApprovalState

-- A row of `ai_job_approvals`, under its job, which it is unique for.
pub record Approval : Type 0 where
  pub approval_id : String
  pub organization_id : String
  pub workspace_id : String
  pub state : ApprovalState
  pub decided_at : Option ℕ

-- A row of `ai_worker_heartbeats`, under its worker.
pub record Heartbeat : Type 0 where
  pub service_id : String
  pub certificate_serial : String
  pub spiffe_id : String
  pub last_seen_at : ℕ
  pub current_job_id : String

-- A row of `ai_worker_registrations`, under its worker and service.
pub record Registration : Type 0 where
  pub max_concurrency : ℕ
  pub enabled : Bool

-- A row of `ai_audit_events`. The actor stands for its fingerprint; the details are left out, since
-- nothing reads them.
pub record AuditEvent : Type 0 where
  pub event_type : String
  pub correlation_id : String
  pub actor : String
  pub job_id : Option String

-- A row of `ai_job_events`.
pub record JobEvent : Type 0 where
  pub job_id : String
  pub event_type : String
  pub state : JobState
  pub sequence : ℕ
  pub correlation_id : String

-- A row of `ai_conversations`, under its `id`.
pub record Conversation : Type 0 where
  pub organization_id : String
  pub workspace_id : String
  pub created_by : String
  pub title : String
  pub active : Bool

-- A row of `ai_messages`, under its `id`; the role is always that of the user.
pub record Message : Type 0 where
  pub conversation_id : String
  pub organization_id : String
  pub workspace_id : String
  pub content : String
  pub content_sha256 : String

-- The tables. A result is kept by the hash of its output, usage by its tokens.
pub record Queue : Type 0 where
  pub jobs : Dict String Job
  pub attempts : List Attempt
  pub chunks : Dict (String × ℕ) Chunk
  pub dead_letters : Dict String DeadLetter
  pub approvals : Dict String Approval
  pub results : Dict String String
  pub usage : Dict String ℕ
  pub heartbeats : Dict String Heartbeat
  pub registrations : Dict (String × String) Registration
  pub conversations : Dict String Conversation
  pub messages : Dict String Message
  pub audits : List AuditEvent
  pub events : List JobEvent

-- `lease_expires_at > now()`, which is not true of NULL.
unfoldable pub is_after : Option ℕ → ℕ → Bool
is_after none now = false
is_after (some t) now = ltb now t

-- `lease_expires_at <= now()`
unfoldable pub is_over : Option ℕ → ℕ → Bool
is_over none now = false
is_over (some t) now = leb t now

-- `CAST(:org AS uuid) IS NULL OR organization_id=:org`
unfoldable pub fits : Option String → String → Bool
fits none x = true
fits (some y) x = y == x

abbrev pub is_absent : {A : Type 0} → Option A → Bool
is_absent none = true
is_absent (some _) = false

-- `INSERT INTO ai_audit_events`
unfoldable pub audit : String → String → String → Option String → Queue → Queue
audit event_type correlation_id actor job_id q = record q {
  audits =
      record {
        event_type = event_type;
        correlation_id = correlation_id;
        actor = actor;
        job_id = job_id;
      }
      ∷ q.audits;
}

-- `UPDATE ai_generation_jobs ... WHERE id=:job`
abbrev pub set_job : String → Job → Queue → Queue
set_job job_id job q = record q { jobs = insert job_id job q.jobs }

abbrev pub is_some : String → Option String → Bool
is_some x none = false
is_some x (some y) = y == x

-- `UPDATE ai_job_attempts ... WHERE job_id=:job AND fencing_token=:token`
unfoldable pub end_attempts : (Attempt → Attempt) → String → ℕ → List Attempt → List Attempt
end_attempts change job_id token [] = []
end_attempts change job_id token (a ∷ attempts) =
    (if a.job_id == job_id && nat_beq a.fencing_token token then change a else a)
    ∷ end_attempts change job_id token attempts
