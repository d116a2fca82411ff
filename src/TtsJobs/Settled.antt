-- ===== src/TtsJobs/Settled.antt =====
-- Speech jobs that have ended (app/core/tts_jobs.py): their rows, over any calls.
use codestra_middleware.Base.{
  ◌≡◌, refl, ◌∙◌, ap, false, List, some, String, lookup, string_eq, arith,
}
use codestra_middleware.TtsJobs.{TtsJob, Table}
use codestra_middleware.TtsJobs.Calls.{
  is_open, is_claimable, can_start, can_stream, can_complete, can_give_up, can_cancel, is_safe,
  is_ambiguous,
}
use codestra_middleware.TtsJobs.Moves.{
  Moves, stays, takes, starts, streams, completes, gives_up, cuts_off, withdraws, requeues, lapses,
}
use codestra_middleware.TtsJobs.Runs.{Op, run, run-Later}

-- The row is still as it was, and it has ended.
abbrev IsSettled : TtsJob → TtsJob → Type 0
IsSettled j k = (k ≡ j) × (is_open k.state ≡ false)

Moves-IsSettled : (i j k : TtsJob) → IsSettled i j → Moves j k → IsSettled i k
unfolding is_claimable can_start can_stream can_complete can_give_up can_cancel is_safe is_ambiguous
Moves-IsSettled i j k p stays = p
Moves-IsSettled i j k (p, q) (takes now w secs e) = absurd (ground arith)
Moves-IsSettled i j k (p, q) (starts now w t e) = absurd (ground arith)
Moves-IsSettled i j k (p, q) (streams now w t size e) = absurd (ground arith)
Moves-IsSettled i j k (p, q) (completes now w t e) = absurd (ground arith)
Moves-IsSettled i j k (p, q) (gives_up now w t f e) = absurd (ground arith)
Moves-IsSettled i j k (p, q) (cuts_off now w t e) = absurd (ground arith)
Moves-IsSettled i j k (p, q) (withdraws now org ws user e) = absurd (ground arith)
Moves-IsSettled i j k (p, q) (requeues now e) = absurd (ground arith)
Moves-IsSettled i j k (p, q) (lapses now e) = absurd (ground arith)

-- A speech job that is completed, failed, cancelled or has an ambiguous outcome is never touched again:
-- after any further calls its row is there and the same in every column.
pub settled_unchanged :
    (ops : List Op) (t : Table) (id : String) (j : TtsJob)
    → lookup id t ≡ some j
    → is_open j.state ≡ false
    → lookup id (run ops t) ≡ some j
settled_unchanged ops t id j found over =
    let l =
      run-Later (IsSettled j) (Moves-IsSettled j) id ops t
        (record { new = j; kept = found; holds = (refl, over) }) in
    l.kept ∙ ap some l.holds.0
