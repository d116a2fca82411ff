-- ===== src/AiJobs/Approvals.antt =====
-- store_result, cancel and decide of app/core/ai_orchestration.py, and the completion of a job by its
-- worker: completed_result_status of app/core/ai_jobs.py and complete_job of
-- app/api/internal/ai_jobs.py.
use codestra_middleware.Base.{
  ℕ, ◌+◌, Bool, true, false, not, ◌&&◌, ◌||◌, List, [], ◌∷◌, Option, none, some, String, ok, err,
  ◌>>=◌, ◌>>◌, raise_if, ◌==◌, string_eq, lookup, insert, max, if◌then◌else◌,
}
use codestra_middleware.Raised.{Outcome, permission_error, lookup_error, http_exception}
use codestra_middleware.AiJobs.{
  JobState, queued, available, retry_wait, completed, failed, cancel_requested, cancelled, expired,
  dead_letter, approval_required, approved, rejected, Job, ApprovalState, Approval, JobEvent, Queue,
  set_job,
}
use codestra_middleware.AiJobs.Leases.{assert_lease}
use codestra_middleware.AiJobs.Endings.{Report, finish}

-- `COALESCE(max(sequence),0)` over the events of a job.
unfoldable pub last_sequence : String → List JobEvent → ℕ
last_sequence job_id [] = 0
last_sequence job_id (e ∷ events) =
    let rest = last_sequence job_id events in
    if e.job_id == job_id then max e.sequence rest else rest

unfoldable pub event : String → String → JobState → String → Queue → Queue
unfolding last_sequence
event job_id event_type state correlation_id q = record q {
  events =
      record {
        job_id = job_id;
        event_type = event_type;
        state = state;
        sequence = last_sequence job_id q.events + 1;
        correlation_id = correlation_id;
      }
      ∷ q.events;
}

-- What `store_result` and the route use of an `AIResult`: the hash of its output and the sum of its
-- tokens.
pub record AiResult : Type 0 where
  pub command_id : String
  pub job_id : String
  pub output_sha256 : String
  pub total_tokens : ℕ

-- `ON CONFLICT DO NOTHING`
abbrev pub keep_or : {A : Type 0} → A → Option A → A
keep_or fresh none = fresh
keep_or fresh (some old) = old

abbrev pub pending_approval : String → Job → Approval
pending_approval approval_id job = record {
  approval_id = approval_id;
  organization_id = job.organization_id;
  workspace_id = job.workspace_id;
  state = ApprovalState.pending;
  decided_at = none;
}

unfoldable pub store_as : Bool → String → String → Job → AiResult → Queue → JobState × Queue
store_as approval approval_id job_id job result q =
    let stored = record q {
      results = insert job_id (keep_or result.output_sha256 (lookup job_id q.results)) q.results;
      usage = insert job_id (keep_or result.total_tokens (lookup job_id q.usage)) q.usage;
    } in
    if approval
    then (
      approval_required,
      record stored {
        approvals =
            insert job_id (keep_or (pending_approval approval_id job) (lookup job_id q.approvals))
              q.approvals;
      },
    )
    else (completed, stored)

unfoldable pub store_result : String → String → Job → AiResult → Queue → JobState × Queue
unfolding store_as
store_result approval_id job_id job result q =
    store_as job.approval_needed approval_id job_id job result q

-- `state in ("completed", "approval_required")`
abbrev pub has_result : JobState → Bool
has_result completed = true
has_result approval_required = true
has_result _ = false

abbrev pub duplicate_rejected {ℓ} : {A : Type ℓ} → Outcome A
duplicate_rejected = err (permission_error "duplicate_result_rejected")

-- The state of a job that has its result already, where the same result comes again.
unfoldable pub same_result : JobState → Option AiResult → Option String → Outcome (Option JobState)
same_result state none stored = duplicate_rejected
same_result state (some result) none = duplicate_rejected
same_result state (some result) (some stored) =
    if stored == result.output_sha256 then ok (some state) else duplicate_rejected

unfoldable pub completed_result_status :
    String → String → String → Option AiResult → Queue → Outcome (Option JobState)
unfolding same_result
completed_result_status job_id organization_id workspace_id result q = elim (lookup job_id q.jobs) [
  | none ↦ ok none
  | some job ↦
      if job.organization_id == organization_id
        && job.workspace_id == workspace_id
        && has_result job.state
      then same_result job.state result (lookup job_id q.results)
      else ok none
]

-- `except PermissionError as exc: raise HTTPException(409, str(exc))`
abbrev pub as_conflict {ℓ} : {A : Type ℓ} → Outcome A → Outcome A
as_conflict (err (permission_error m)) = err (http_exception 409 m)
as_conflict r = r

-- The authenticated worker of a request.
pub record WorkerPrincipal : Type 0 where
  pub worker_id : String
  pub tenant_id : String
  pub workspace_id : String
  pub correlation_id : String

abbrev pub completion : WorkerPrincipal → JobState → Report
completion p state = record {
  has_failed = false;
  error_code = none;
  retryable = false;
  correlation_id = p.correlation_id;
  completion_state = state;
  safe_error_details = [];
}

-- `store_result` runs in the transaction that `finish` commits, so what it stores is lost where the
-- latter raises.
unfoldable pub complete_with :
    ℕ
    → String
    → String
    → String
    → ℕ
    → Option AiResult
    → WorkerPrincipal
    → Queue
    → Outcome (JobState × Queue)
complete_with now approval_id job_id worker_id token none p q = as_conflict (
    finish now job_id worker_id token (completion p completed) (some p.tenant_id)
      (some p.workspace_id) q)
complete_with now approval_id job_id worker_id token (some result) p q = do
  raise_if (not (result.job_id == job_id) || not (result.command_id == job_id))
      (http_exception 409 "result reference mismatch")
  job ←
      as_conflict
        (assert_lease now job_id worker_id token (some p.tenant_id) (some p.workspace_id) false q)
  let stored = store_result approval_id job_id job result q
  as_conflict (
      finish now job_id worker_id token (completion p stored.0) (some p.tenant_id)
        (some p.workspace_id) stored.1)

unfoldable pub complete_new :
    ℕ
    → String
    → String
    → String
    → ℕ
    → Option AiResult
    → WorkerPrincipal
    → Queue
    → Option JobState
    → Outcome ((JobState × Bool) × Queue)
complete_new now approval_id job_id worker_id token result p q (some state) = ok ((state, true), q)
complete_new now approval_id job_id worker_id token result p q none = do
  done ← complete_with now approval_id job_id worker_id token result p q
  ok ((done.0, false), done.1)

-- The state of the job and whether the result is a duplicate.
unfoldable pub complete_job :
    ℕ
    → String
    → String
    → String
    → ℕ
    → Option AiResult
    → WorkerPrincipal
    → Queue
    → Outcome ((JobState × Bool) × Queue)
complete_job now approval_id job_id worker_id token result p q = do
  raise_if (not (worker_id == p.worker_id)) (http_exception 401 "authentication denied")
  duplicate ← as_conflict (completed_result_status job_id p.tenant_id p.workspace_id result q)
  complete_new now approval_id job_id worker_id token result p q duplicate

-- `state NOT IN ('completed','failed','cancelled','expired','dead_letter','rejected')`
abbrev pub is_cancellable : JobState → Bool
is_cancellable completed = false
is_cancellable failed = false
is_cancellable cancelled = false
is_cancellable expired = false
is_cancellable dead_letter = false
is_cancellable rejected = false
is_cancellable _ = true

-- `state IN ('queued','available','retry_wait','approval_required')`
abbrev pub is_idle : JobState → Bool
is_idle queued = true
is_idle available = true
is_idle retry_wait = true
is_idle approval_required = true
is_idle _ = false

abbrev pub cancel_asked : ℕ → Job → Job
cancel_asked now job = record job {
  cancel_requested_at = some (keep_or now job.cancel_requested_at);
  state = if is_idle job.state then cancelled else cancel_requested;
  completed_at = if is_idle job.state then some now else job.completed_at;
  updated_at = now;
  version = job.version + 1;
}

unfoldable pub cancel : ℕ → String → String → String → String → Queue → Outcome (JobState × Queue)
unfolding event
cancel now job_id tenant_id workspace_id correlation_id q = elim (lookup job_id q.jobs) [
  | none ↦ err (lookup_error "active_command_not_found")
  | some job ↦
      if job.organization_id == tenant_id
        && job.workspace_id == workspace_id
        && is_cancellable job.state
      then (let row = cancel_asked now job in
          ok (
            row.state,
            event job_id "command.cancellation_requested" row.state correlation_id
                (set_job job_id row q),
          ))
      else err (lookup_error "active_command_not_found")
]

abbrev pub decided : ℕ → JobState → Job → Job
decided now state job = record job { state = state; updated_at = now; version = job.version + 1 }

-- `UPDATE ai_generation_jobs ... WHERE id=:job`, whatever the state of the job.
unfoldable pub set_decided : ℕ → String → JobState → Queue → Option Job → Queue
set_decided now job_id state q none = q
set_decided now job_id state q (some job) = set_job job_id (decided now state job) q

abbrev pub is_pending : ApprovalState → Bool
is_pending ApprovalState.pending = true
is_pending _ = false

unfoldable pub decide_in :
    ℕ → String → Bool → String → Approval → Queue → Outcome (JobState × Queue)
unfolding event set_decided
decide_in now job_id granted correlation_id a q =
    let state = if granted then approved else rejected in
    let q' = record q {
      approvals =
          insert job_id
            (record a {
              state = if granted then ApprovalState.approved else ApprovalState.rejected;
              decided_at = some now;
            })
            q.approvals;
    } in
    ok (
      state,
      event job_id (if granted then "approval.approved" else "approval.rejected") state
          correlation_id (set_decided now job_id state q' (lookup job_id q.jobs)),
    )

unfoldable pub decide :
    ℕ → String → String → String → String → Bool → Queue → Outcome (JobState × Queue)
unfolding decide_in
decide now job_id tenant_id workspace_id correlation_id granted q =
    elim (lookup job_id q.approvals) [
      | none ↦ err (lookup_error "pending_approval_not_found")
      | some a ↦
          if a.organization_id == tenant_id && a.workspace_id == workspace_id && is_pending a.state
          then decide_in now job_id granted correlation_id a q
          else err (lookup_error "pending_approval_not_found")
    ]
