-- ===== src/AiJobs/Recovery.antt =====
-- retry_dead_letter, recover_expired and expire_deadlines of app/core/ai_jobs.py: what happens to jobs
-- that nobody holds.
use codestra_middleware.Base.{
  ℕ, ◌+◌, Bool, true, false, ◌&&◌, ◌||◌, [], ◌∷◌, Option, none, some, String, ok, err, Dict, ltb,
  leb, ◌==◌, string_eq, lookup, insert, update_all, select, length, or_default, if◌then◌else◌,
}
use codestra_middleware.Raised.{Outcome, permission_error, lookup_error}
use codestra_middleware.AiJobs.{
  JobState, queued, retry_wait, leased, cancel_requested, cancelled, expired, dead_letter, Job,
  DeadLetter, ApprovalState, Approval, Queue, is_after, is_over, is_absent, fits, set_job, audit,
  end_attempts,
}
use codestra_middleware.AiJobs.Endings.{is_dead}

abbrev pub is_granted : ApprovalState → Bool
is_granted ApprovalState.approved = true
is_granted _ = false

-- The join of `retry_dead_letter`: a dead letter that asks for a new approval, and an approval that
-- was given after it.
unfoldable pub is_released : DeadLetter → String → String → String → Approval → Bool
is_released d approval_id organization_id workspace_id a =
    d.organization_id == organization_id
    && d.workspace_id == workspace_id
    && d.manual_retry_requires_new_approval
    && a.approval_id == approval_id
    && is_granted a.state
    && is_after a.decided_at d.failed_at

abbrev pub revived : ℕ → Job → Job
revived now job = record job {
  state = retry_wait;
  max_attempts = job.max_attempts + 1;
  next_attempt_at = now;
  failure_code = none;
  completed_at = none;
  updated_at = now;
  version = job.version + 1;
}

unfoldable pub revive_in :
    ℕ → String → String → String → DeadLetter → Queue → Outcome (JobState × Queue)
unfolding audit
revive_in now job_id actor correlation_id d q = elim (lookup job_id q.jobs) [
  | none ↦ err (lookup_error "dead_letter_not_retryable")
  | some job ↦
      if is_dead job.state && ltb job.max_attempts 10
      then (let q' = set_job job_id (revived now job) q in
          ok (
            retry_wait,
            audit "job.dead_letter.retry" correlation_id actor (some job_id) (record q' {
              dead_letters =
                  insert job_id
                    (record d {
                      recovery_status = "approved_retry";
                      manual_retry_requires_new_approval = false;
                    })
                    q.dead_letters;
            }),
          ))
      else err (lookup_error "dead_letter_not_retryable")
]

unfoldable pub retry_released :
    ℕ
    → String
    → String
    → String
    → String
    → String
    → String
    → Queue
    → Option DeadLetter
    → Option Approval
    → Outcome (JobState × Queue)
unfolding is_released revive_in
retry_released now job_id approval_id organization_id workspace_id actor correlation_id q (some d)
      (some a) =
    if is_released d approval_id organization_id workspace_id a
    then revive_in now job_id actor correlation_id d q
    else err (permission_error "new_approval_required")
retry_released now job_id approval_id organization_id workspace_id actor correlation_id q _ _ =
    err (permission_error "new_approval_required")

unfoldable pub retry_dead_letter :
    ℕ → String → String → String → String → String → String → Queue → Outcome (JobState × Queue)
retry_dead_letter now job_id approval_id organization_id workspace_id actor correlation_id q =
    retry_released now job_id approval_id organization_id workspace_id actor correlation_id q
      (lookup job_id q.dead_letters) (lookup job_id q.approvals)

abbrev pub awaits_end : JobState → Bool
awaits_end cancel_requested = true
awaits_end _ = false

abbrev pub is_leased : JobState → Bool
is_leased leased = true
is_leased _ = false

-- `state IN ('queued','retry_wait','leased')`
abbrev pub is_open : JobState → Bool
is_open queued = true
is_open retry_wait = true
is_open leased = true
is_open _ = false

module _ (now : ℕ) (organization_id workspace_id : Option String) where
  abbrev in_scope : Job → Bool
  in_scope job = fits organization_id job.organization_id && fits workspace_id job.workspace_id

  abbrev pub is_in_time : Job → Bool
  is_in_time job = is_absent job.deadline_at || is_after job.deadline_at now

  unfoldable pub loses_cancelled : Job → Bool
  unfolding is_over fits
  loses_cancelled job = awaits_end job.state && is_over job.lease_expires_at now && in_scope job

  unfoldable pub loses_retried : Job → Bool
  unfolding is_over is_after fits
  loses_retried job =
      is_leased job.state
      && is_over job.lease_expires_at now
      && ltb job.attempt_count job.max_attempts
      && is_in_time job
      && in_scope job

  unfoldable pub loses_dead : Job → Bool
  unfolding is_over is_after fits
  loses_dead job =
      is_leased job.state
      && is_over job.lease_expires_at now
      && leb job.max_attempts job.attempt_count
      && is_in_time job
      && in_scope job

  abbrev pub lapsed_cancelled : Job → Job
  lapsed_cancelled job =
      if loses_cancelled job
      then record job {
        state = cancelled;
        lease_owner = none;
        lease_expires_at = none;
        completed_at = some now;
        updated_at = now;
      }
      else job

  abbrev pub lapsed_retried : Job → Job
  lapsed_retried job =
      if loses_retried job
      then record job {
        state = retry_wait;
        lease_owner = none;
        lease_expires_at = none;
        next_attempt_at = now;
        updated_at = now;
      }
      else job

  abbrev pub lapsed_dead : Job → Job
  lapsed_dead job =
      if loses_dead job
      then record job {
        state = dead_letter;
        lease_owner = none;
        lease_expires_at = none;
        failure_code = some "lease_expired";
        completed_at = some now;
        updated_at = now;
      }
      else job

  -- One round of the loop over `cancelled_rows`.
  unfoldable pub record_one : String → Job → Queue → Queue
  unfolding end_attempts audit
  record_one id job q =
      if loses_cancelled job
      then audit "job.cancelled" (or_default "lease-recovery" job.correlation_id) "lease-recovery"
          (some id)
          (record q {
            attempts =
                end_attempts (λ a. record a { state = cancelled; finished_at = some now }) id
                  job.fencing_token q.attempts;
          })
      else q

  unfoldable pub record_cancelled : Dict String Job → Queue → Queue
  record_cancelled [] q = q
  record_cancelled ((id, job) ∷ rows) q = record_cancelled rows (record_one id job q)

  abbrev lapsed_letter : Job → DeadLetter
  lapsed_letter job = record {
    organization_id = job.organization_id;
    workspace_id = job.workspace_id;
    final_error_code = "lease_expired";
    attempt_count = job.attempt_count;
    max_attempts = job.max_attempts;
    safe_error_details = [];
    failed_at = now;
    correlation_id = or_default "lease-recovery" job.correlation_id;
    manual_retry_requires_new_approval = true;
    recovery_status = "pending";
  }

  -- The loop over `dead_rows`: `ON CONFLICT(job_id) DO NOTHING`.
  unfoldable pub bury_lapsed : Dict String Job → Dict String DeadLetter → Dict String DeadLetter
  bury_lapsed [] letters = letters
  bury_lapsed ((id, job) ∷ rows) letters = bury_lapsed rows (
      if loses_dead job && is_absent (lookup id letters)
      then insert id (lapsed_letter job) letters
      else letters)

  abbrev rows_where : (Job → Bool) → Dict String Job → ℕ
  rows_where test jobs = length (select (λ p. test p.1) jobs)

  -- The three updates, one after another; the answer counts the retried and the dead.
  unfoldable pub recover_expired : Queue → (ℕ × ℕ) × Queue
  unfolding record_cancelled bury_lapsed update_all
  recover_expired q =
      let q₁ = record_cancelled q.jobs (record q { jobs = update_all lapsed_cancelled q.jobs }) in
      let retried = rows_where loses_retried q₁.jobs in
      let jobs₂ = update_all lapsed_retried q₁.jobs in
      let dead = rows_where loses_dead jobs₂ in
      (
        (retried, dead),
        record q₁ {
          jobs = update_all lapsed_dead jobs₂;
          dead_letters = bury_lapsed jobs₂ q₁.dead_letters;
        },
      )

  unfoldable pub outlives_deadline : Job → Bool
  unfolding is_over fits
  outlives_deadline job = is_open job.state && is_over job.deadline_at now && in_scope job

  abbrev pub past_deadline : Job → Job
  past_deadline job =
      if outlives_deadline job
      then record job {
        state = expired;
        lease_owner = none;
        lease_expires_at = none;
        failure_code = some "deadline_expired";
        completed_at = some now;
        updated_at = now;
      }
      else job

  unfoldable pub expire_deadlines : Queue → ℕ × Queue
  unfolding update_all
  expire_deadlines q =
      (rows_where outlives_deadline q.jobs, record q { jobs = update_all past_deadline q.jobs })
