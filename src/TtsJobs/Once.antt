-- ===== src/TtsJobs/Once.antt =====
-- The request to the voice provider (app/core/tts_jobs.py): it is paid for and goes out at most once.
use codestra_middleware.Base.{
  ℕ, ◌≡◌, refl, subst, Bool, true, false, List, Option, none, some, String, ok, err, lookup,
  lookup-insert_self, string_eq, arith, Bool-cases, inl, inr,
}
use codestra_middleware.Raised.{permission_error}
use codestra_middleware.TtsJobs.{TtsJob, TtsState, queued, claimed, Table, update_found, update_row}
use codestra_middleware.TtsJobs.Calls.{
  mark_provider_started, claim_exact, is_claimable, taken, or_stale, can_start, started, is_safe,
}
use codestra_middleware.TtsJobs.Moves.{
  Moves, stays, takes, starts, streams, completes, gives_up, cuts_off, withdraws, requeues, lapses,
}
use codestra_middleware.TtsJobs.Runs.{Op, run, Later, run-Later}

abbrev pub is_waiting : TtsState → Bool
is_waiting queued = true
is_waiting claimed = true
is_waiting _ = false

-- The job has left the states from which its request is sent.
abbrev IsSpent : TtsJob → Type 0
IsSpent j = is_waiting j.state ≡ false

Moves-IsSpent : (j k : TtsJob) → IsSpent j → Moves j k → IsSpent k
unfolding is_claimable can_start is_safe
Moves-IsSpent j k p stays = p
Moves-IsSpent j k p (takes now w secs e) = ground arith
Moves-IsSpent j k p (starts now w t e) = refl
Moves-IsSpent j k p (streams now w t size e) = refl
Moves-IsSpent j k p (completes now w t e) = refl
Moves-IsSpent j k p (gives_up now w t f e) = refl
Moves-IsSpent j k p (cuts_off now w t e) = refl
Moves-IsSpent j k p (withdraws now org ws user e) = refl
Moves-IsSpent j k p (requeues now e) = ground arith
Moves-IsSpent j k p (lapses now e) = refl

-- What an update selects, it does not find in other rows.
update_row-misses :
    (id : String) (test : TtsJob → Bool) (change : TtsJob → TtsJob) (t : Table) (j : TtsJob)
    → lookup id t ≡ some j
    → test j ≡ false
    → update_row id test change t ≡ (false, t)
unfolding update_row update_found
update_row-misses id test change t j e misses = rw (e, misses) refl

started-IsSpent :
    (now : ℕ) (worker_id : String) (token : ℕ) (id : String) (t t' : Table) (o : Option TtsJob)
    → or_stale (update_found id (can_start now worker_id token) (started now worker_id token) t o)
      ≡ ok t'
    → Later IsSpent id t'
unfolding or_stale update_found
started-IsSpent now worker_id token id t t' none e = absurd (cc)
started-IsSpent now worker_id token id t t' (some j) e =
    elim (Bool-cases (can_start now worker_id token j)) [
      | inl passes ↦ record {
        new = started now worker_id token j;
        kept =
            subst (λ u. lookup id u ≡ some (started now worker_id token j)) (ground arith)
              (lookup-insert_self id (started now worker_id token j) t);
        holds = refl;
      }
      | inr fails ↦ absurd (cc)
    ]

spent-unstartable :
    (now : ℕ) (worker_id : String) (token : ℕ) (j : TtsJob)
    → IsSpent j
    → can_start now worker_id token j ≡ false
unfolding can_start
spent-unstartable now worker_id token j p = ground arith

spent-unclaimable : (j : TtsJob) → IsSpent j → is_claimable j ≡ false
unfolding is_claimable
spent-unclaimable j p = ground arith

-- Once a request to the provider is marked as sent, it is sent no second time: after any further calls
-- by anybody, restarts, lapsed leases and recoveries included, the job can be neither claimed nor
-- marked as sent again.
pub asked_once :
    (now : ℕ) (worker_id : String) (token : ℕ) (id : String) (t t' : Table) (ops : List Op)
    → mark_provider_started now worker_id token id t ≡ ok t'
    → ((now : ℕ) (worker_id : String) (token : ℕ)
        → mark_provider_started now worker_id token id (run ops t')
          ≡ err (permission_error "tts_stale_or_cancelled_lease"))
      × ((now : ℕ) (worker_id : String) (lease_seconds : ℕ)
          → claim_exact now id worker_id lease_seconds (run ops t') ≡ (false, run ops t'))
unfolding mark_provider_started claim_exact
asked_once now worker_id token id t t' ops e =
    let l =
      run-Later IsSpent Moves-IsSpent id ops t'
        (started-IsSpent now worker_id token id t t' (lookup id t) e) in
    (
      λ n w k.
          rw
            (update_row-misses id (can_start n w k) (started n w k) (run ops t') l.new l.kept
              (spent-unstartable n w k l.new l.holds))
            refl,
      λ n w s.
          update_row-misses id is_claimable (taken n w s) (run ops t') l.new l.kept
            (spent-unclaimable l.new l.holds),
    )
