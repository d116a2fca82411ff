-- ===== src/TtsJobs/Calls.antt =====
-- The operations of app/core/tts_jobs.py, each by the rows that its statement selects and by what it
-- sets in them.
use codestra_middleware.Base.{
  ℕ, ◌+◌, Bool, true, false, not, ◌&&◌, List, [], ◌∷◌, Option, none, some, String, ok, err, ◌>>◌,
  raise_if, leb, nat_beq, ◌==◌, string_eq, lookup, insert, update_all, keys, select, length,
  if◌then◌else◌,
}
use codestra_middleware.Clock.{seconds}
use codestra_middleware.Raised.{Outcome, value_error, key_error, permission_error, lookup_error}
use codestra_middleware.TtsJobs.{
  TtsState, queued, claimed, provider_starting, streaming, completed, failed, cancelled,
  ambiguous_provider_outcome, TtsJob, Table, is_null, coalesce, is_after, is_over, owned_by,
  update_row,
}

pub record Request : Type 0 where
  pub organization_id : String
  pub workspace_id : String
  pub requested_by : String
  pub project_key : String
  pub idempotency_key : String
  pub request_sha256 : String

abbrev pub fresh_job : ℕ → Request → TtsJob
fresh_job now r = record {
  organization_id = r.organization_id;
  workspace_id = r.workspace_id;
  requested_by = r.requested_by;
  project_key = r.project_key;
  idempotency_key = r.idempotency_key;
  request_sha256 = r.request_sha256;
  state = queued;
  attempt_count = 0;
  fencing_token = 0;
  lease_owner = none;
  lease_expires_at = none;
  provider_request_started_at = none;
  first_chunk_at = none;
  chunk_count = 0;
  audio_bytes = 0;
  completed_at = none;
  cancellation_at = none;
  failure_class = none;
  created_at = now;
  updated_at = now;
}

-- The row that `ON CONFLICT(organization_id,workspace_id,project_key,requested_by,idempotency_key)`
-- meets.
unfoldable pub conflicting : Request → Table → Option (String × TtsJob)
conflicting r [] = none
conflicting r ((id, job) ∷ t) =
    if job.organization_id == r.organization_id
      && job.workspace_id == r.workspace_id
      && job.project_key == r.project_key
      && job.requested_by == r.requested_by
      && job.idempotency_key == r.idempotency_key
    then some (id, job)
    else conflicting r t

-- The answer: identifier, state and whether the row is new. The statement is committed before the
-- hashes are compared, but on a conflict it leaves the row as it is. A `uuid4` that is in use is
-- refused by the primary key.
unfoldable pub submit_as :
    ℕ
    → String
    → Request
    → Table
    → Option (String × TtsJob)
    → Outcome ((String × TtsState × Bool) × Table)
submit_as now job_id r t (some (id, job)) = do
  raise_if (not (job.request_sha256 == r.request_sha256)) (value_error "tts_idempotency_conflict")
  ok ((id, job.state, id == job_id), t)
submit_as now job_id r t none = do
  raise_if (not (is_null (lookup job_id t))) (key_error "tts_generation_jobs_pkey")
  ok ((job_id, queued, true), insert job_id (fresh_job now r) t)

unfoldable pub submit : ℕ → String → Request → Table → Outcome ((String × TtsState × Bool) × Table)
submit now job_id r t = submit_as now job_id r t (conflicting r t)

abbrev pub is_queued : TtsState → Bool
is_queued queued = true
is_queued _ = false

abbrev pub is_claimed : TtsState → Bool
is_claimed claimed = true
is_claimed _ = false

abbrev pub is_streaming : TtsState → Bool
is_streaming streaming = true
is_streaming _ = false

-- `state IN ('provider_starting','streaming')`
abbrev pub is_at_provider : TtsState → Bool
is_at_provider provider_starting = true
is_at_provider streaming = true
is_at_provider _ = false

-- `state NOT IN ('completed','failed','cancelled','ambiguous_provider_outcome')`
abbrev pub is_open : TtsState → Bool
is_open completed = false
is_open failed = false
is_open cancelled = false
is_open ambiguous_provider_outcome = false
is_open _ = true

unfoldable pub is_claimable : TtsJob → Bool
is_claimable job = is_queued job.state && is_null job.cancellation_at

-- The older of a row and the oldest of those after it. The identifiers that break a tie are not
-- ordered in the model, which takes the first.
unfoldable pub older : String → Option TtsJob → Option (String × TtsJob) → Option (String × TtsJob)
older id none rest = rest
older id (some job) none = if is_claimable job then some (id, job) else none
older id (some job) (some (other, best)) =
    if is_claimable job && leb job.created_at best.created_at
    then some (id, job)
    else some (other, best)

-- `ORDER BY created_at,id ... LIMIT 1`
unfoldable pub oldest : Table → List String → Option (String × TtsJob)
unfolding older is_claimable
oldest t [] = none
oldest t (id ∷ ids) = older id (lookup id t) (oldest t ids)

abbrev pub taken : ℕ → String → ℕ → TtsJob → TtsJob
taken now worker_id lease_seconds job = record job {
  state = claimed;
  lease_owner = some worker_id;
  lease_expires_at = some (now + seconds lease_seconds);
  attempt_count = job.attempt_count + 1;
  fencing_token = job.fencing_token + 1;
  updated_at = now;
}

unfoldable pub claim_exact : ℕ → String → String → ℕ → Table → Bool × Table
unfolding is_claimable update_row
claim_exact now job_id worker_id lease_seconds t =
    update_row job_id is_claimable (taken now worker_id lease_seconds) t

unfoldable pub claim_candidate : ℕ → String → ℕ → Table → Option (String × TtsJob) → Bool × Table
claim_candidate now worker_id lease_seconds t none = (false, t)
claim_candidate now worker_id lease_seconds t (some (id, job)) =
    claim_exact now id worker_id lease_seconds t

unfoldable pub claim : ℕ → String → ℕ → Table → Bool × Table
unfolding claim_candidate
claim now worker_id lease_seconds t =
    claim_candidate now worker_id lease_seconds t (oldest t (keys t))

-- `if row is None: raise PermissionError(...)`
unfoldable pub or_stale : Bool × Table → Outcome Table
or_stale (true, t) = ok t
or_stale (false, t) = err (permission_error "tts_stale_or_cancelled_lease")

module _ (now : ℕ) (worker_id : String) (token : ℕ) where
  -- `lease_owner=:worker AND fencing_token=:token`
  unfoldable pub holds : TtsJob → Bool
  holds job = owned_by worker_id job.lease_owner && nat_beq job.fencing_token token

  unfoldable pub can_start : TtsJob → Bool
  unfolding holds is_after
  can_start job =
      is_claimed job.state
      && holds job
      && is_after job.lease_expires_at now
      && is_null job.cancellation_at

  abbrev pub started : TtsJob → TtsJob
  started job = record job {
    state = provider_starting;
    provider_request_started_at = some now;
    updated_at = now;
  }

  unfoldable pub mark_provider_started : String → Table → Outcome Table
  unfolding or_stale can_start update_row
  mark_provider_started job_id t = or_stale (update_row job_id can_start started t)

  unfoldable pub can_stream : TtsJob → Bool
  unfolding holds is_after
  can_stream job =
      is_at_provider job.state
      && holds job
      && is_after job.lease_expires_at now
      && is_null job.cancellation_at

  abbrev pub streamed : ℕ → TtsJob → TtsJob
  streamed size job = record job {
    state = streaming;
    first_chunk_at = coalesce job.first_chunk_at now;
    chunk_count = job.chunk_count + 1;
    audio_bytes = job.audio_bytes + size;
    lease_expires_at = some (now + seconds 60);
    updated_at = now;
  }

  unfoldable pub record_chunk : String → ℕ → Table → Outcome Table
  unfolding or_stale can_stream update_row
  record_chunk job_id size t = or_stale (update_row job_id can_stream (streamed size) t)

  unfoldable pub can_complete : TtsJob → Bool
  unfolding holds
  can_complete job =
      is_streaming job.state
      && holds job
      && not (is_null job.first_chunk_at)
      && is_null job.cancellation_at

  abbrev pub ended : TtsJob → TtsJob
  ended job = record job {
    state = completed;
    completed_at = some now;
    lease_owner = none;
    lease_expires_at = none;
    updated_at = now;
  }

  unfoldable pub complete : String → Table → Bool × Table
  unfolding can_complete update_row
  complete job_id t = update_row job_id can_complete ended t

  unfoldable pub can_give_up : TtsJob → Bool
  unfolding holds
  can_give_up job = is_at_provider job.state && holds job

  -- `failure` stands for `failure_class[:128]`.
  abbrev pub given_up : String → TtsJob → TtsJob
  given_up failure job = record job {
    state = ambiguous_provider_outcome;
    failure_class = some failure;
    lease_owner = none;
    lease_expires_at = none;
    updated_at = now;
  }

  unfoldable pub mark_ambiguous : String → String → Table → Bool × Table
  unfolding can_give_up update_row
  mark_ambiguous job_id failure t = update_row job_id can_give_up (given_up failure) t

  abbrev pub cut_off : TtsJob → TtsJob
  cut_off job = record job {
    state = cancelled;
    cancellation_at = coalesce job.cancellation_at now;
    lease_owner = none;
    lease_expires_at = none;
    updated_at = now;
  }

  unfoldable pub mark_cancelled_streaming : String → Table → Bool × Table
  unfolding can_give_up update_row
  mark_cancelled_streaming job_id t = update_row job_id can_give_up cut_off t

unfoldable pub can_cancel : String → String → String → TtsJob → Bool
can_cancel organization_id workspace_id requested_by job =
    job.organization_id == organization_id
    && job.workspace_id == workspace_id
    && job.requested_by == requested_by
    && is_open job.state

abbrev pub withdrawn : ℕ → TtsJob → TtsJob
withdrawn now job = record job {
  cancellation_at = some now;
  state = cancelled;
  lease_owner = none;
  lease_expires_at = none;
  updated_at = now;
}

unfoldable pub or_missing : Bool × Table → Outcome (TtsState × Table)
or_missing (true, t) = ok (cancelled, t)
or_missing (false, t) = err (lookup_error "tts_job_not_found_or_terminal")

unfoldable pub cancel : ℕ → String → String → String → String → Table → Outcome (TtsState × Table)
unfolding or_missing can_cancel update_row
cancel now job_id organization_id workspace_id requested_by t =
    or_missing
      (update_row job_id (can_cancel organization_id workspace_id requested_by) (withdrawn now) t)

module _ (now : ℕ) where
  -- The rows of the first statement: no request went out.
  unfoldable pub is_safe : TtsJob → Bool
  unfolding is_over
  is_safe job =
      is_claimed job.state
      && is_over job.lease_expires_at now
      && is_null job.provider_request_started_at
      && is_null job.cancellation_at

  unfoldable pub is_ambiguous : TtsJob → Bool
  unfolding is_over
  is_ambiguous job = is_at_provider job.state && is_over job.lease_expires_at now

  abbrev pub released : TtsJob → TtsJob
  released job = record job {
    state = queued;
    lease_owner = none;
    lease_expires_at = none;
    updated_at = now;
  }

  abbrev pub requeued : TtsJob → TtsJob
  requeued job = if is_safe job then released job else job

  abbrev pub lost : TtsJob → TtsJob
  lost job = record job {
    state = ambiguous_provider_outcome;
    lease_owner = none;
    lease_expires_at = none;
    failure_class = some "TTS_AMBIGUOUS_PROVIDER_OUTCOME";
    updated_at = now;
  }

  abbrev pub lapsed : TtsJob → TtsJob
  lapsed job = if is_ambiguous job then lost job else job

  abbrev rows_where : (TtsJob → Bool) → Table → ℕ
  rows_where test t = length (select (λ p. test p.1) t)

  -- The answer counts the requeued and the ambiguous rows.
  unfoldable pub recover_expired : Table → (ℕ × ℕ) × Table
  unfolding update_all
  recover_expired t =
      let t' = update_all requeued t in
      ((rows_where is_safe t, rows_where is_ambiguous t'), update_all lapsed t')
