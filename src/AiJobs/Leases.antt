-- ===== src/AiJobs/Leases.antt =====
-- assert_lease, heartbeat and append_chunk of app/core/ai_jobs.py: what the holder of a lease does.
use Prim.Native.String.{len}
use codestra_middleware.Base.{
  ℕ, ◌+◌, Bool, true, false, ◌&&◌, Option, none, some, String, ok, err, ◌>>=◌, ◌>>◌, raise_if, ltb,
  nat_beq, string_eq, nat_eq, pair_eq, lookup, insert, if◌then◌else◌,
}
use codestra_middleware.Clock.{seconds}
use codestra_middleware.Raised.{Outcome, permission_error, limit_error}
use codestra_middleware.AiJobs.{
  JobState, leased, cancel_requested, Job, Chunk, Queue, is_after, fits, is_some, set_job,
}

-- `state='leased' OR (:allow_cancel_requested AND state='cancel_requested')`
unfoldable pub is_held : Bool → JobState → Bool
is_held allow leased = true
is_held allow cancel_requested = allow
is_held allow _ = false

-- The rows that `assert_lease` selects.
unfoldable pub has_lease : ℕ → String → ℕ → Option String → Option String → Bool → Job → Bool
unfolding is_held is_after fits
has_lease now worker_id token organization_id workspace_id allow job =
    is_held allow job.state
    && is_some worker_id job.lease_owner
    && nat_beq job.fencing_token token
    && is_after job.lease_expires_at now
    && fits organization_id job.organization_id
    && fits workspace_id job.workspace_id

abbrev stale {ℓ} : {A : Type ℓ} → Outcome A
stale = err (permission_error "stale_or_invalid_lease")

unfoldable pub assert_lease :
    ℕ → String → String → ℕ → Option String → Option String → Bool → Queue → Outcome Job
assert_lease now job_id worker_id token organization_id workspace_id allow q =
    elim (lookup job_id q.jobs) [
      | none ↦ stale
      | some job ↦
          if has_lease now worker_id token organization_id workspace_id allow job
          then ok job
          else stale
    ]

-- A heartbeat leaves the job with a longer lease.
abbrev pub renewed : ℕ → ℕ → Job → Job
renewed now lease_seconds job = record job {
  lease_expires_at = some (now + seconds lease_seconds);
  updated_at = now;
}

pub record Worker : Type 0 where
  pub service_id : String
  pub certificate_serial : String
  pub spiffe_id : String

unfoldable pub heartbeat :
    ℕ
    → String
    → String
    → ℕ
    → ℕ
    → Worker
    → Option String
    → Option String
    → Queue
    → Outcome (ℕ × Queue)
heartbeat now job_id worker_id token lease_seconds worker organization_id workspace_id q = do
  job ← assert_lease now job_id worker_id token organization_id workspace_id true q
  let q' = set_job job_id (renewed now lease_seconds job) q
  ok (
    now + seconds lease_seconds,
    record q' {
      heartbeats =
          insert worker_id
            (record {
              service_id = worker.service_id;
              certificate_serial = worker.certificate_serial;
              spiffe_id = worker.spiffe_id;
              last_seen_at = now;
              current_job_id = job_id;
            })
            q.heartbeats;
    },
  )

abbrev pub grown : ℕ → ℕ → Job → Job
grown now size job = record job { output_bytes = job.output_bytes + size; updated_at = now }

-- `ON CONFLICT(job_id,sequence) DO NOTHING`: a chunk that is there already is left as it is.
unfoldable pub insert_chunk :
    ℕ → String → ℕ → ℕ → String → Job → Queue → Option Chunk → Bool × Queue
insert_chunk now job_id token sequence content job q (some known) = (false, q)
insert_chunk now job_id token sequence content job q none =
    let q' = set_job job_id (grown now (len content) job) q in
    (
      true,
      record q' {
        chunks =
            insert (job_id, sequence)
              (record { fencing_token = token; content = content; size = len content }) q.chunks;
      },
    )

unfoldable pub append_chunk :
    ℕ
    → String
    → String
    → ℕ
    → ℕ
    → String
    → ℕ
    → Option String
    → Option String
    → Queue
    → Outcome (Bool × Queue)
append_chunk now job_id worker_id token sequence content max_output_bytes organization_id
      workspace_id q =
    do
      job ← assert_lease now job_id worker_id token organization_id workspace_id false q
      raise_if (ltb max_output_bytes (job.output_bytes + len content))
          (limit_error "output_limit_exceeded")
      ok (insert_chunk now job_id token sequence content job q (lookup (job_id, sequence) q.chunks))
