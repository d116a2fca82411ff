-- ===== src/AiJobs/Endings.antt =====
-- finish and worker_cancel of app/core/ai_jobs.py: how the holder of a lease ends a job.
use codestra_middleware.Base.{
  ℕ, ◌+◌, ◌^◌, Bool, true, false, not, ◌&&◌, Option, none, some, String, ok, err, ◌>>=◌, Dict, ltb,
  nat_beq, ◌==◌, string_eq, lookup, insert, min, any, if◌then◌else◌,
}
use codestra_middleware.Clock.{seconds}
use codestra_middleware.Json.{Value}
use codestra_middleware.Text.{is_empty}
use codestra_middleware.Raised.{Outcome, permission_error}
use codestra_middleware.AiJobs.{
  JobState, queued, available, leased, running, retry_wait, completed, failed, cancel_requested,
  cancelled, expired, dead_letter, approval_required, approved, rejected, Job, Attempt, DeadLetter,
  Queue, is_absent, set_job, audit, end_attempts,
}
use codestra_middleware.AiJobs.Leases.{assert_lease}
use codestra_middleware.AiJobs.Details.{sanitize_error_details}

-- The text of a state in the name of an audit event.
unfoldable pub event_of : JobState → String
event_of queued = "job.queued"
event_of available = "job.available"
event_of leased = "job.leased"
event_of running = "job.running"
event_of retry_wait = "job.retry_wait"
event_of completed = "job.completed"
event_of failed = "job.failed"
event_of cancel_requested = "job.cancel_requested"
event_of cancelled = "job.cancelled"
event_of expired = "job.expired"
event_of dead_letter = "job.dead_letter"
event_of approval_required = "job.approval_required"
event_of approved = "job.approved"
event_of rejected = "job.rejected"

-- What a worker reports at the end.
pub record Report : Type 0 where
  pub has_failed : Bool
  pub error_code : Option String
  pub retryable : Bool
  pub correlation_id : String
  pub completion_state : JobState
  pub safe_error_details : Dict String Value

unfoldable pub final_state : Report → Job → JobState
final_state r job =
    if not (is_absent job.cancel_requested_at)
    then cancelled
    else if not r.has_failed
    then r.completion_state
    else if r.retryable && ltb job.attempt_count job.max_attempts
    then retry_wait
    else if r.has_failed
    then dead_letter
    else failed

abbrev pub is_retry : JobState → Bool
is_retry retry_wait = true
is_retry _ = false

abbrev pub is_dead : JobState → Bool
is_dead dead_letter = true
is_dead _ = false

-- `:state IN ('completed','approval_required','cancelled','dead_letter','failed')`
abbrev pub ends : JobState → Bool
ends completed = true
ends approval_required = true
ends cancelled = true
ends dead_letter = true
ends failed = true
ends _ = false

-- Seconds before the next try: `min(300, 2 ** min(attempt_count, 8))`
unfoldable pub retry_delay : ℕ → ℕ
retry_delay attempts = min 300 (2 ^ min attempts 8)

abbrev pub finished : ℕ → Report → JobState → Job → Job
finished now r state job = record job {
  state = state;
  lease_owner = none;
  lease_expires_at = none;
  next_attempt_at =
      if is_retry state then now + seconds (retry_delay job.attempt_count) else job.next_attempt_at;
  failure_code = r.error_code;
  completed_at = if ends state then some now else none;
  updated_at = now;
}

-- `error_code or "attempts_exhausted"`, which replaces an empty code too.
abbrev pub error_or : String → Option String → String
error_or replacement none = replacement
error_or replacement (some error) = if is_empty error then replacement else error

-- `ON CONFLICT(job_id) DO UPDATE`: a row that is there keeps its tenant and its recovery status.
unfoldable pub bury : ℕ → Report → Job → Option DeadLetter → DeadLetter
bury now r job none = record {
  organization_id = job.organization_id;
  workspace_id = job.workspace_id;
  final_error_code = error_or "attempts_exhausted" r.error_code;
  attempt_count = job.attempt_count;
  max_attempts = job.max_attempts;
  safe_error_details = sanitize_error_details r.safe_error_details;
  failed_at = now;
  correlation_id = r.correlation_id;
  manual_retry_requires_new_approval = true;
  recovery_status = "pending";
}
bury now r job (some old) = record old {
  final_error_code = error_or "attempts_exhausted" r.error_code;
  attempt_count = job.attempt_count;
  max_attempts = job.max_attempts;
  safe_error_details = sanitize_error_details r.safe_error_details;
  failed_at = now;
  correlation_id = r.correlation_id;
  manual_retry_requires_new_approval = true;
}

abbrev pub end_attempt : ℕ → JobState → Option String → Attempt → Attempt
end_attempt now state error a = record a {
  state = state;
  safe_error_code = error;
  finished_at = some now;
}

-- The tables once the holder of the lease on `job` has ended it in `state`.
unfoldable pub finish_in : ℕ → String → String → ℕ → Report → JobState → Job → Queue → Queue
unfolding bury end_attempts audit event_of
finish_in now job_id worker_id token r state job q =
    let q' = set_job job_id (finished now r state job) q in
    audit (event_of state) r.correlation_id worker_id (some job_id) (record q' {
      attempts = end_attempts (end_attempt now state r.error_code) job_id token q.attempts;
      dead_letters =
          if is_dead state
          then insert job_id (bury now r job (lookup job_id q.dead_letters)) q.dead_letters
          else q.dead_letters;
    })

unfoldable pub finish :
    ℕ
    → String
    → String
    → ℕ
    → Report
    → Option String
    → Option String
    → Queue
    → Outcome (JobState × Queue)
finish now job_id worker_id token r organization_id workspace_id q = do
  job ← assert_lease now job_id worker_id token organization_id workspace_id true q
  ok (final_state r job, finish_in now job_id worker_id token r (final_state r job) job q)

abbrev pub stopped : ℕ → Job → Job
stopped now job = record job {
  state = cancelled;
  lease_owner = none;
  lease_expires_at = none;
  completed_at = some now;
  updated_at = now;
}

-- `UPDATE ai_job_attempts ... AND worker_id=:worker`
abbrev stop_attempt : ℕ → String → Attempt → Attempt
stop_attempt now worker_id a =
    if a.worker_id == worker_id then record a { state = cancelled; finished_at = some now } else a

abbrev pub is_cancelled : JobState → Bool
is_cancelled cancelled = true
is_cancelled _ = false

-- The state of the job is `cancelled` under this token, and an attempt of the worker had the token.
unfoldable pub was_cancelled : String → String → ℕ → String → String → Queue → Bool
was_cancelled job_id worker_id token organization_id workspace_id q = elim (lookup job_id q.jobs) [
  | none ↦ false
  | some job ↦
      job.organization_id == organization_id
      && job.workspace_id == workspace_id
      && is_cancelled job.state
      && nat_beq job.fencing_token token
      && any (λ a. a.job_id == job_id && nat_beq a.fencing_token token && a.worker_id == worker_id)
          q.attempts
]

unfoldable pub cancel_held :
    ℕ → String → String → ℕ → String → Job → Queue → Outcome ((Bool × JobState) × Queue)
unfolding end_attempts audit
cancel_held now job_id worker_id token correlation_id job q =
    if is_absent job.cancel_requested_at
    then ok ((false, job.state), q)
    else (let q' = set_job job_id (stopped now job) q in
        ok (
          (true, cancelled),
          audit "job.cancelled" correlation_id worker_id (some job_id) (record q' {
            attempts = end_attempts (stop_attempt now worker_id) job_id token q.attempts;
          }),
        ))

-- The `except PermissionError` of `worker_cancel`.
unfoldable pub cancel_again : Bool → Queue → Outcome ((Bool × JobState) × Queue)
cancel_again true q = ok ((true, cancelled), q)
cancel_again false q = err (permission_error "stale_or_invalid_lease")

unfoldable pub worker_cancel :
    ℕ → String → String → ℕ → String → String → String → Queue → Outcome ((Bool × JobState) × Queue)
worker_cancel now job_id worker_id token organization_id workspace_id correlation_id q =
    elim (assert_lease now job_id worker_id token (some organization_id) (some workspace_id) true
      q) [
        | ok job ↦ cancel_held now job_id worker_id token correlation_id job q
        | err e ↦
            cancel_again (was_cancelled job_id worker_id token organization_id workspace_id q) q
      ]
