-- ===== src/AiJobs/Admission.antt =====
-- claim of app/core/ai_jobs.py: which job a worker gets. A transaction locks the worker's
-- registration, so that claims of one worker come one after another.
use codestra_middleware.Base.{
  ℕ, ◌+◌, Bool, true, false, not, ◌&&◌, ◌||◌, List, [], ◌∷◌, Option, none, some, String, ok, err,
  ◌>>=◌, ◌>>◌, raise_if, ltb, leb, nat_beq, string_eq, pair_eq, Dict, lookup, keys, contains, all,
  length, min, if◌then◌else◌,
}
use codestra_middleware.Clock.{seconds}
use codestra_middleware.Raised.{Outcome, value_error, permission_error, limit_error}
use codestra_middleware.AiJobs.{
  JobState, queued, retry_wait, leased, cancel_requested, Job, Attempt, Queue, is_after, fits,
  is_some, is_absent, set_job, audit,
}
use codestra_middleware.AiJobs.Profiles.{
  names, model_runtime_classes, effective_compatible_profiles,
}

abbrev pub worker_hard_safety_cap : ℕ
worker_hard_safety_cap = 2

-- What a worker asks for.
pub record Claim : Type 0 where
  pub worker_id : String
  pub lease_seconds : ℕ
  pub correlation_id : String
  pub organization_id : Option String
  pub workspace_id : Option String
  pub service_id : Option String
  pub allowed_model_profiles : Option (List String)

unfoldable pub check_filter : Option (List String) → Outcome (Unit {0})
check_filter none = ok tt
check_filter (some []) = err (value_error "invalid_model_profile_filter")
check_filter (some (p ∷ ps)) =
    raise_if (not (all (λ x. contains x (names model_runtime_classes)) (p ∷ ps)))
      (value_error "invalid_model_profile_filter")

-- `state IN ('leased','cancel_requested')`
unfoldable pub is_active : JobState → Bool
is_active leased = true
is_active cancel_requested = true
is_active _ = false

-- The jobs that run under the worker's leases, of the organization and workspace of the claim.
unfoldable pub runs_for : ℕ → Claim → Job → Bool
unfolding is_active is_after fits
runs_for now c job =
    is_active job.state
    && is_some c.worker_id job.lease_owner
    && is_after job.lease_expires_at now
    && fits c.organization_id job.organization_id
    && fits c.workspace_id job.workspace_id

-- Their profiles. Only their number and the set of them matters, so they come in the table's order.
unfoldable pub active_profiles : ℕ → Claim → Dict String Job → List (Option String)
active_profiles now c [] = []
active_profiles now c ((id, job) ∷ jobs) =
    let rest = active_profiles now c jobs in
    if runs_for now c job then job.model_profile ∷ rest else rest

-- The limit of an enabled worker.
unfoldable pub concurrency : String → String → Queue → Outcome ℕ
concurrency worker_id service_id q = elim (lookup (worker_id, service_id) q.registrations) [
  | none ↦ err (permission_error "worker_not_enabled")
  | some r ↦
      if r.enabled
      then ok (min r.max_concurrency worker_hard_safety_cap)
      else err (permission_error "worker_not_enabled")
]

-- The profiles that are active beside a new one; a caller without a service is not limited.
unfoldable pub admit : ℕ → Claim → Option String → Queue → Outcome (List (Option String))
admit now c none q = ok []
admit now c (some service_id) q = do
  limit ← concurrency c.worker_id service_id q
  let active = active_profiles now c q.jobs
  raise_if (leb limit (length active)) (limit_error "worker_concurrency_limit")
  ok active

unfoldable pub profile_filter : Claim → List String → Option (List String)
profile_filter c effective =
    if is_absent c.service_id && is_absent c.allowed_model_profiles then none else some effective

-- `state IN ('queued','retry_wait')`
unfoldable pub is_waiting : JobState → Bool
is_waiting queued = true
is_waiting retry_wait = true
is_waiting _ = false

unfoldable pub profile_fits : Option (List String) → Option String → Bool
profile_fits none none = true
profile_fits none (some p) = contains p (names model_runtime_classes)
profile_fits (some ps) none = false
profile_fits (some ps) (some p) = contains p (names model_runtime_classes) && contains p ps

-- The rows that a claim selects from.
unfoldable pub is_claimable : ℕ → Claim → Option (List String) → Job → Bool
unfolding is_waiting profile_fits is_after fits
is_claimable now c profiles job =
    is_waiting job.state
    && leb job.next_attempt_at now
    && profile_fits profiles job.model_profile
    && fits c.organization_id job.organization_id
    && fits c.workspace_id job.workspace_id
    && is_absent job.cancel_requested_at
    && (is_absent job.deadline_at || is_after job.deadline_at now)

-- `ORDER BY priority,created_at`
unfoldable pub comes_before : Job → Job → Bool
comes_before a b =
    ltb a.priority b.priority || (nat_beq a.priority b.priority && ltb a.created_at b.created_at)

-- The better of a row and the best of the rows after it; of equal rows the database takes any, here
-- the first.
unfoldable pub better :
    (Job → Bool) → String → Option Job → Option (String × Job) → Option (String × Job)
better test id none rest = rest
better test id (some job) none = if test job then some (id, job) else none
better test id (some job) (some (other, best)) =
    if test job && not (comes_before best job) then some (id, job) else some (other, best)

-- The first of the rows that pass the test, in the order of the claims.
unfoldable pub candidate : (Job → Bool) → Dict String Job → List String → Option (String × Job)
unfolding better comes_before
candidate test jobs [] = none
candidate test jobs (id ∷ ids) = better test id (lookup id jobs) (candidate test jobs ids)

abbrev pub claimed : ℕ → Claim → Job → Job
claimed now c job = record job {
  state = leased;
  lease_owner = some c.worker_id;
  lease_expires_at = some (now + seconds c.lease_seconds);
  fencing_token = job.fencing_token + 1;
  attempt_count = job.attempt_count + 1;
  updated_at = now;
}

abbrev pub attempt_of : String → Claim → Job → Attempt
attempt_of job_id c job = record {
  job_id = job_id;
  attempt_number = job.attempt_count;
  fencing_token = job.fencing_token;
  worker_id = c.worker_id;
  state = leased;
  safe_error_code = none;
  finished_at = none;
}

unfoldable pub take : ℕ → Claim → Queue → Option (String × Job) → Option (String × Job) × Queue
take now c q none = (none, q)
take now c q (some (id, job)) =
    let row = claimed now c job in
    let q' = set_job id row q in
    (
      some (id, row),
      audit "job.claimed" c.correlation_id c.worker_id (some id)
          (record q' { attempts = attempt_of id c row ∷ q.attempts }),
    )

unfoldable pub claim_among : ℕ → Claim → List String → Queue → Option (String × Job) × Queue
claim_among now c [] q =
    (none, audit "job.claim.admission_rejected" c.correlation_id c.worker_id none q)
claim_among now c (p ∷ ps) q =
    take now c q (candidate (is_claimable now c (profile_filter c (p ∷ ps))) q.jobs (keys q.jobs))

unfoldable pub claim : ℕ → Claim → Queue → Outcome (Option (String × Job) × Queue)
claim now c q = do
  check_filter c.allowed_model_profiles
  active ← admit now c c.service_id q
  ok (claim_among now c (effective_compatible_profiles active c.allowed_model_profiles) q)
