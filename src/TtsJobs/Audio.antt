-- ===== src/TtsJobs/Audio.antt =====
-- What the columns of a speech job say together (app/core/tts_jobs.py), over any calls.
use codestra_middleware.Base.{
  ℕ, ◌≡◌, refl, Bool, true, false, not, ◌&&◌, List, ltb, string_eq, arith,
}
use codestra_middleware.TtsJobs.{
  TtsJob, TtsState, queued, claimed, provider_starting, streaming, completed, failed, cancelled,
  ambiguous_provider_outcome, Table, is_null,
}
use codestra_middleware.TtsJobs.Calls.{
  Request, fresh_job, is_claimable, can_start, can_stream, can_complete, can_give_up, can_cancel,
  is_safe, is_ambiguous,
}
use codestra_middleware.TtsJobs.Moves.{
  Moves, stays, takes, starts, streams, completes, gives_up, cuts_off, withdraws, requeues, lapses,
}
use codestra_middleware.TtsJobs.Runs.{Op, run, Everywhere, run-Everywhere}

-- What a state says of a job: whether the provider was asked, whether a chunk came, and whether a
-- worker holds it.
abbrev pub fits : TtsState → Bool → Bool → Bool → Bool
fits queued asked heard held = not asked && not heard && not held
fits claimed asked heard held = not asked && not heard && held
fits provider_starting asked heard held = asked && not heard && held
fits streaming asked heard held = asked && heard && held
fits completed asked heard held = asked && heard && not held
fits ambiguous_provider_outcome asked heard held = asked && not held
fits failed asked heard held = false
fits cancelled asked heard held = not held

pub record IsCoherent (j : TtsJob) : Type 0 where
  pub fitting :
      fits j.state
        (not (is_null j.provider_request_started_at))
        (not (is_null j.first_chunk_at))
        (not (is_null j.lease_owner))
      ≡ true
  pub counted : ltb 0 j.chunk_count ≡ not (is_null j.first_chunk_at)
  pub leased : is_null j.lease_expires_at ≡ is_null j.lease_owner
  pub fenced : j.fencing_token ≡ j.attempt_count

fresh_job-IsCoherent : (now : ℕ) (r : Request) → IsCoherent (fresh_job now r)
fresh_job-IsCoherent now r = record { fitting = refl; counted = refl; leased = refl; fenced = refl }

Moves-IsCoherent : (j k : TtsJob) → IsCoherent j → Moves j k → IsCoherent k
unfolding is_claimable can_start can_stream can_complete can_give_up can_cancel is_safe is_ambiguous
Moves-IsCoherent j k p stays = p
Moves-IsCoherent j k p (takes now w secs e) = ground arith
Moves-IsCoherent j k p (starts now w t e) = ground arith
Moves-IsCoherent j k p (streams now w t size e) = ground arith
Moves-IsCoherent j k p (completes now w t e) = ground arith
Moves-IsCoherent j k p (gives_up now w t f e) = ground arith
Moves-IsCoherent j k p (cuts_off now w t e) = ground arith
Moves-IsCoherent j k p (withdraws now org ws user e) = ground arith
Moves-IsCoherent j k p (requeues now e) = ground arith
Moves-IsCoherent j k p (lapses now e) = ground arith

-- Whatever is called, and in whatever order, the columns of every speech job agree with its state: a
-- completed job had its request sent and at least one chunk received, one that is queued or claimed has
-- had neither, exactly the claimed, starting and streaming jobs are held under a lease, no job is
-- `failed`, and the fencing token counts the attempts. The table has the property at first.
pub run-IsCoherent :
    (ops : List Op) (t : Table) → Everywhere IsCoherent t → Everywhere IsCoherent (run ops t)
run-IsCoherent ops t p = run-Everywhere IsCoherent Moves-IsCoherent fresh_job-IsCoherent ops t p
