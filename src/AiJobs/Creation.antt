-- ===== src/AiJobs/Creation.antt =====
-- create_conversation and create_message_job of app/core/ai_jobs.py, and submit of
-- app/core/ai_orchestration.py: how a job comes into the queue. The advisory lock on the key makes a
-- request one transaction.
use codestra_middleware.Base.{
  ℕ, ◌+◌, Bool, true, false, not, ◌&&◌, [], ◌∷◌, Option, none, some, String, ok, ◌>>=◌, ◌>>◌,
  raise_if, Dict, ltb, leb, ◌==◌, string_eq, lookup, insert, select, length, if◌then◌else◌,
}
use codestra_middleware.Raised.{Outcome, value_error, lookup_error, limit_error}
use codestra_middleware.AiJobs.{
  JobState, queued, available, leased, running, retry_wait, approval_required, Job, Conversation,
  Queue, is_absent, set_job, audit,
}
use codestra_middleware.AiJobs.Profiles.{resolve_browser_model_profile}
use codestra_middleware.AiJobs.Contracts.{AiCommand, BrowserRequest, build_browser_worker_contract}
use codestra_middleware.AiJobs.Approvals.{event}

unfoldable pub create_conversation :
    String → String → String → String → String → String → Queue → String × Queue
unfolding audit
create_conversation conversation_id organization_id workspace_id user_id title correlation_id q = (
  conversation_id,
  audit "conversation.created" correlation_id user_id none (record q {
    conversations =
        insert conversation_id
          (record {
            organization_id = organization_id;
            workspace_id = workspace_id;
            created_by = user_id;
            title = title;
            active = true;
          })
          q.conversations;
  }),
)

-- The row of the tenant's key, which is unique in `ai_generation_jobs`.
unfoldable pub find_key : String → String → String → Dict String Job → Option (String × Job)
find_key organization_id workspace_id key [] = none
find_key organization_id workspace_id key ((id, job) ∷ jobs) =
    if job.organization_id == organization_id
      && job.workspace_id == workspace_id
      && job.idempotency_key == key
    then some (id, job)
    else find_key organization_id workspace_id key jobs

-- The row that an `INSERT` makes, with the defaults of the table.
abbrev pub fresh_job : ℕ → String → Option String → String → ℕ → AiCommand → Job
fresh_job now workspace_id message_id hash max_attempts c = record {
  organization_id = c.tenant_id;
  workspace_id = workspace_id;
  state = queued;
  model_profile = some c.model_policy.profile;
  request_sha256 = hash;
  request_message_id = message_id;
  idempotency_key = c.idempotency_key;
  correlation_id = some c.correlation_id;
  priority = c.priority;
  attempt_count = 0;
  max_attempts = max_attempts;
  fencing_token = 0;
  lease_owner = none;
  lease_expires_at = none;
  next_attempt_at = now;
  cancel_requested_at = none;
  completed_at = none;
  failure_code = none;
  output_bytes = 0;
  deadline_at = some c.deadline_at;
  created_at = now;
  updated_at = now;
  version = 1;
  approval_needed = c.approval_required;
}

pub record Created : Type 0 where
  pub job_id : String
  pub message_id : Option String
  pub state : JobState
  pub idempotent_replay : Bool

-- The answer for a key that is in use.
unfoldable pub replayed : String → String × Job → Outcome Created
replayed hash (id, job) = do
  raise_if (not (job.request_sha256 == hash)) (value_error "idempotency_conflict")
  ok (record {
    job_id = id;
    message_id = job.request_message_id;
    state = job.state;
    idempotent_replay = true;
  })

abbrev pub is_own : BrowserRequest → Option Conversation → Bool
is_own r none = false
is_own r (some c) =
    c.organization_id == r.organization_id && c.workspace_id == r.workspace_id && c.active

-- The hashes: of conversation, task, project and content; and of the content.
module _ (encoded : AiCommand → ℕ) (request_sha256 : BrowserRequest → String)
    (sha256 : String → String) where
  unfoldable pub add_message_job :
      ℕ → String → String → String → BrowserRequest → AiCommand → Queue → Queue
  unfolding audit
  add_message_job now job_id message_id hash r c q =
      let row = fresh_job now r.workspace_id (some message_id) hash r.max_attempts c in
      let q' = set_job job_id row q in
      audit "job.queued" r.correlation_id r.user_id (some job_id) (record q' {
        messages =
            insert message_id
              (record {
                conversation_id = r.conversation_id;
                organization_id = r.organization_id;
                workspace_id = r.workspace_id;
                content = r.content;
                content_sha256 = sha256 r.content;
              })
              q.messages;
      })

  unfoldable pub reuse_or_add :
      ℕ
      → String
      → String
      → BrowserRequest
      → Queue
      → Option (String × Job)
      → Outcome (Created × Queue)
  reuse_or_add now job_id message_id r q (some known) = do
    answer ← replayed (request_sha256 r) known
    ok (answer, q)
  reuse_or_add now job_id message_id r q none = do
    raise_if (not (is_own r (lookup r.conversation_id q.conversations)))
        (lookup_error "conversation_not_found")
    c ← build_browser_worker_contract encoded now job_id r
    ok (
      record {
        job_id = job_id;
        message_id = some message_id;
        state = queued;
        idempotent_replay = false;
      },
      add_message_job now job_id message_id (request_sha256 r) r c q,
    )

  unfoldable pub create_message_job :
      ℕ → String → String → BrowserRequest → Queue → Outcome (Created × Queue)
  create_message_job now job_id message_id r q = do
    profile ← resolve_browser_model_profile r.task_type
    reuse_or_add now job_id message_id r q
        (find_key r.organization_id r.workspace_id r.idempotency_key q.jobs)

-- A row of `ai_tenant_quotas`, and the settings that stand in where there is none.
pub record Quota : Type 0 where
  pub max_queued : ℕ
  pub daily_tokens : ℕ
  pub max_payload_bytes : ℕ

pub record Settings : Type 0 where
  pub ai_default_max_queued_per_tenant : ℕ
  pub ai_daily_token_quota : ℕ
  pub ai_global_emergency_limit : ℕ

-- `state IN ('queued','available','retry_wait','approval_required')`
abbrev pub counts_queued : JobState → Bool
counts_queued queued = true
counts_queued available = true
counts_queued retry_wait = true
counts_queued approval_required = true
counts_queued _ = false

-- `state IN ('queued','available','leased','running','retry_wait')`
abbrev pub counts_active : JobState → Bool
counts_active queued = true
counts_active available = true
counts_active leased = true
counts_active running = true
counts_active retry_wait = true
counts_active _ = false

abbrev pub tenant_queued : String → String → Dict String Job → ℕ
tenant_queued organization_id workspace_id jobs = length (
    select
      (λ p.
        p.1.organization_id == organization_id
        && p.1.workspace_id == workspace_id
        && counts_queued p.1.state)
      jobs)

abbrev pub all_active : Dict String Job → ℕ
all_active jobs = length (select (λ p. counts_active p.1.state) jobs)

abbrev pub limit_of : (Quota → ℕ) → ℕ → Option Quota → ℕ
limit_of field default none = default
limit_of field default (some q) = field q

abbrev pub payload_exceeds : ℕ → Option Quota → Bool
payload_exceeds size none = false
payload_exceeds size (some q) = ltb q.max_payload_bytes size

-- `payload_size` and `payload_sha256` are those of the canonical JSON of the command; `used_tokens` is
-- the sum of today's rows of `ai_usage_ledger`.
module _ (payload_size : AiCommand → ℕ) (payload_sha256 : AiCommand → String) (settings : Settings)
    (quota : Option Quota) (used_tokens : ℕ) where
  unfoldable pub check_quota : AiCommand → String → Queue → Outcome (Unit {0})
  check_quota c workspace_id q = do
    raise_if
        (leb (limit_of (λ x. x.max_queued) settings.ai_default_max_queued_per_tenant quota)
          (tenant_queued c.tenant_id workspace_id q.jobs))
        (limit_error "tenant_queue_quota_exceeded")
    raise_if (payload_exceeds (payload_size c) quota) (limit_error "tenant_payload_quota_exceeded")
    raise_if
        (ltb (limit_of (λ x. x.daily_tokens) settings.ai_daily_token_quota quota)
          (used_tokens + c.resource_limits.token_budget))
        (limit_error "daily_token_quota_exceeded")
    raise_if
        (ltb 0 settings.ai_global_emergency_limit
          && leb settings.ai_global_emergency_limit (all_active q.jobs))
        (limit_error "global_emergency_limit")

  unfoldable pub submit_as :
      ℕ → String → AiCommand → Queue → Option (String × Job) → Outcome (Created × Queue)
  unfolding event
  submit_as now workspace_id c q (some known) = do
    answer ← replayed (payload_sha256 c) known
    ok (answer, q)
  submit_as now workspace_id c q none = do
    raise_if (not (is_absent (lookup c.command_id q.jobs))) (value_error "command_id_conflict")
    check_quota c workspace_id q
    let row =
        fresh_job now workspace_id none (payload_sha256 c) (c.resource_limits.retry_count + 1) c
    ok (
      record {
        job_id = c.command_id;
        message_id = none;
        state = queued;
        idempotent_replay = false;
      },
      event c.command_id "command.submitted" queued c.correlation_id (set_job c.command_id row q),
    )

  unfoldable pub submit : ℕ → AiCommand → String → Queue → Outcome (Created × Queue)
  submit now c workspace_id q =
      submit_as now workspace_id c q (find_key c.tenant_id workspace_id c.idempotency_key q.jobs)
