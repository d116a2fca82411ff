-- ===== src/TtsJobs/Tests.antt =====
-- Concrete speech jobs (app/core/tts_jobs.py).
use codestra_middleware.Base.{
  ℕ, ◌≡◌, refl, false, List, [], ◌∷◌, some, none, String, ok, err, lookup, insert, string_eq, ◌++◌,
}
use codestra_middleware.Clock.{seconds}
use codestra_middleware.Raised.{permission_error}
use codestra_middleware.TtsJobs.{TtsJob, completed, Table, update_row, update_found, is_after}
use codestra_middleware.TtsJobs.Calls.{
  Request, submit, submit_as, conflicting, claim_exact, is_claimable, mark_provider_started,
  or_stale, can_start, holds, taken, started, fresh_job, record_chunk, can_stream, complete,
  can_complete,
}
use codestra_middleware.TtsJobs.Runs.{
  Op, op_submit, op_claim, op_claim_exact, op_start, op_chunk, op_complete, op_cancel, op_recover,
  apply, run, Everywhere,
}
use codestra_middleware.TtsJobs.Once.{asked_once}
use codestra_middleware.TtsJobs.Audio.{IsCoherent, run-IsCoherent}
use codestra_middleware.TtsJobs.Settled.{settled_unchanged}

abbrev request : Request
request = record {
  organization_id = "org";
  workspace_id = "ws";
  requested_by = "user";
  project_key = "p";
  idempotency_key = "k";
  request_sha256 = "digest";
}

abbrev to_claimed : List Op
to_claimed = op_submit (seconds 1) "j" request ∷ op_claim_exact (seconds 2) "j" "w" 30 ∷ []

abbrev spoken : List Op
spoken =
    op_start (seconds 3) "w" 1 "j"
    ∷ op_chunk (seconds 4) "w" 1 "j" 320
    ∷ op_complete (seconds 5) "w" 1 "j"
    ∷ []

abbrev lapsing : List Op
lapsing =
    op_recover (seconds 90)
    ∷ op_claim (seconds 91) "v" 30
    ∷ op_start (seconds 92) "v" 2 "j"
    ∷ op_cancel (seconds 93) "j" "org" "ws" "user"
    ∷ []

-- A job that was claimed.
abbrev claimed_job : TtsJob
claimed_job = taken (seconds 2) "w" 30 (fresh_job (seconds 1) request)

abbrev ready : Table
ready = ("j", claimed_job) ∷ []

to_claimed_runs : run to_claimed [] ≡ ready
unfolding run apply submit submit_as conflicting claim_exact is_claimable update_row update_found
    lookup insert
to_claimed_runs = refl

abbrev asked : Table
asked = ("j", started (seconds 3) "w" 1 claimed_job) ∷ []

ready_starts : mark_provider_started (seconds 3) "w" 1 "j" ready ≡ ok asked
unfolding mark_provider_started or_stale can_start holds is_after update_row update_found lookup
    insert
ready_starts = refl

asked_once_example :
    ((now : ℕ) (worker_id : String) (token : ℕ)
      → mark_provider_started now worker_id token "j" (run lapsing asked)
        ≡ err (permission_error "tts_stale_or_cancelled_lease"))
    × ((now : ℕ) (worker_id : String) (lease_seconds : ℕ)
        → claim_exact now "j" worker_id lease_seconds (run lapsing asked)
          ≡ (false, run lapsing asked))
asked_once_example = asked_once (seconds 3) "w" 1 "j" ready asked lapsing ready_starts

empty-IsCoherent : Everywhere IsCoherent []
unfolding lookup
empty-IsCoherent id j e = absurd (cc)

run-IsCoherent_example : Everywhere IsCoherent (run (to_claimed ++ spoken) [])
run-IsCoherent_example = run-IsCoherent (to_claimed ++ spoken) [] empty-IsCoherent

abbrev finished : TtsJob
finished = record claimed_job {
  state = completed;
  lease_owner = none;
  lease_expires_at = none;
  provider_request_started_at = some (seconds 3);
  first_chunk_at = some (seconds 4);
  chunk_count = 1;
  audio_bytes = 320;
  completed_at = some (seconds 5);
  updated_at = seconds 5;
}

abbrev done : Table
done = ("j", finished) ∷ []

spoken_runs : run spoken ready ≡ done
unfolding run apply mark_provider_started or_stale can_start holds is_after update_row update_found
    lookup insert record_chunk can_stream complete can_complete
spoken_runs = refl

settled_unchanged_example : lookup "j" (run lapsing done) ≡ some finished
unfolding lookup
settled_unchanged_example = settled_unchanged lapsing done "j" finished refl refl
