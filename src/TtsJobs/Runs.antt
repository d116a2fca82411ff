-- ===== src/TtsJobs/Runs.antt =====
-- Runs of the table of speech jobs: the operations as data, the table after each, and what it makes of
-- every row.
use codestra_middleware.Base.{
  ℕ, ◌≡◌, refl, sym, subst, Bool, true, false, List, [], ◌∷◌, Option, none, some, String, ok, err,
  lookup, insert, string_eq, ◌>>◌, raise_if, not, ◌==◌, keys, arith,
}
use codestra_middleware.Raised.{Raised, Outcome}
use codestra_middleware.TtsJobs.{TtsJob, queued, Table, is_null}
use codestra_middleware.TtsJobs.Calls.{
  Request, fresh_job, conflicting, submit_as, submit, oldest, claim_exact, claim_candidate, claim,
  is_claimable, taken, or_stale, mark_provider_started, can_start, started, record_chunk,
  can_stream, streamed, complete, can_complete, ended, mark_ambiguous, can_give_up, given_up,
  mark_cancelled_streaming, cut_off, or_missing, cancel, can_cancel, withdrawn, recover_expired,
}
use codestra_middleware.TtsJobs.Moves.{
  Moves, takes, starts, streams, completes, gives_up, cuts_off, withdraws, Change, absent, appears,
  becomes, Changes, unchanged, set-Change, update_row-Changes, sweep-Changes,
}

-- A call, with the instant and the identifiers that it draws.
pub data Op : Type 0 where
  op_submit : (now : ℕ) (job_id : String) (r : Request) → Op
  op_claim : (now : ℕ) (worker_id : String) (lease_seconds : ℕ) → Op
  op_claim_exact : (now : ℕ) (job_id worker_id : String) (lease_seconds : ℕ) → Op
  op_start : (now : ℕ) (worker_id : String) (token : ℕ) (job_id : String) → Op
  op_chunk : (now : ℕ) (worker_id : String) (token : ℕ) (job_id : String) (size : ℕ) → Op
  op_complete : (now : ℕ) (worker_id : String) (token : ℕ) (job_id : String) → Op
  op_ambiguous : (now : ℕ) (worker_id : String) (token : ℕ) (job_id failure : String) → Op
  op_cut_off : (now : ℕ) (worker_id : String) (token : ℕ) (job_id : String) → Op
  op_cancel : (now : ℕ) (job_id organization_id workspace_id requested_by : String) → Op
  op_recover : (now : ℕ) → Op

abbrev pub after : {A : Type 0} → Outcome (A × Table) → Table → Table
after (ok (a, t')) t = t'
after (err e) t = t

abbrev pub after_step : Outcome Table → Table → Table
after_step (ok t') t = t'
after_step (err e) t = t

-- The table after a call.
unfoldable pub apply : Op → Table → Table
apply (op_submit now job_id r) t = after (submit now job_id r t) t
apply (op_claim now worker_id lease_seconds) t = (claim now worker_id lease_seconds t).1
apply (op_claim_exact now job_id worker_id lease_seconds) t =
    (claim_exact now job_id worker_id lease_seconds t).1
apply (op_start now worker_id token job_id) t =
    after_step (mark_provider_started now worker_id token job_id t) t
apply (op_chunk now worker_id token job_id size) t =
    after_step (record_chunk now worker_id token job_id size t) t
apply (op_complete now worker_id token job_id) t = (complete now worker_id token job_id t).1
apply (op_ambiguous now worker_id token job_id failure) t =
    (mark_ambiguous now worker_id token job_id failure t).1
apply (op_cut_off now worker_id token job_id) t =
    (mark_cancelled_streaming now worker_id token job_id t).1
apply (op_cancel now job_id organization_id workspace_id requested_by) t =
    after (cancel now job_id organization_id workspace_id requested_by t) t
apply (op_recover now) t = (recover_expired now t).1

-- The table after the calls, from the first to the last.
unfoldable pub run : List Op → Table → Table
run [] t = t
run (op ∷ ops) t = run ops (apply op t)

is_null-none : {A : Type 0} (o : Option A) → is_null o ≡ true → o ≡ none
is_null-none none e = refl
is_null-none (some j) e = absurd (cc)

raised-Changes :
    {A : Type 0} (b : Bool) (e : Raised) (x : A) (t u : Table)
    → (b ≡ false → Changes t u)
    → Changes t (after (raise_if b e >> ok (x, u)) t)
raised-Changes true e x t u c = λ id. unchanged (lookup id t)
raised-Changes false e x t u c = c refl

submit_as-Changes :
    (now : ℕ) (job_id : String) (r : Request) (t : Table) (o : Option (String × TtsJob))
    → Changes t (after (submit_as now job_id r t o) t)
unfolding submit_as
submit_as-Changes now job_id r t (some (id, job)) =
    raised-Changes (not (job.request_sha256 == r.request_sha256)) _ (id, job.state, id == job_id) t
      t λ e i. unchanged (lookup i t)
submit_as-Changes now job_id r t none =
    raised-Changes (not (is_null (lookup job_id t))) _ (job_id, queued, true) t
      (insert job_id (fresh_job now r) t)
      λ e. set-Change job_id (fresh_job now r) t (
        subst (λ o. Change o (some (fresh_job now r)))
          (sym (is_null-none (lookup job_id t) (ground arith))) (appears now r))

claim_candidate-Changes :
    (now : ℕ) (worker_id : String) (lease_seconds : ℕ) (t : Table) (o : Option (String × TtsJob))
    → Changes t (claim_candidate now worker_id lease_seconds t o).1
unfolding claim_candidate claim_exact
claim_candidate-Changes now worker_id lease_seconds t none = λ id. unchanged (lookup id t)
claim_candidate-Changes now worker_id lease_seconds t (some (id, j)) =
    update_row-Changes id is_claimable (taken now worker_id lease_seconds) t
      λ k e. takes now worker_id lease_seconds e

or_stale-Changes :
    (t : Table) (u : Bool × Table) → Changes t u.1 → Changes t (after_step (or_stale u) t)
unfolding or_stale
or_stale-Changes t (true, t') c = c
or_stale-Changes t (false, t') c = λ id. unchanged (lookup id t)

or_missing-Changes :
    (t : Table) (u : Bool × Table) → Changes t u.1 → Changes t (after (or_missing u) t)
unfolding or_missing
or_missing-Changes t (true, t') c = c
or_missing-Changes t (false, t') c = λ id. unchanged (lookup id t)

pub apply-Changes : (op : Op) (t : Table) → Changes t (apply op t)
unfolding apply submit claim claim_exact mark_provider_started record_chunk complete mark_ambiguous
    mark_cancelled_streaming cancel recover_expired
apply-Changes (op_submit now job_id r) t = submit_as-Changes now job_id r t (conflicting r t)
apply-Changes (op_claim now worker_id lease_seconds) t =
    claim_candidate-Changes now worker_id lease_seconds t (oldest t (keys t))
apply-Changes (op_claim_exact now job_id worker_id lease_seconds) t =
    update_row-Changes job_id is_claimable (taken now worker_id lease_seconds) t
      λ k e. takes now worker_id lease_seconds e
apply-Changes (op_start now worker_id token job_id) t = or_stale-Changes t _ (
    update_row-Changes job_id (can_start now worker_id token) (started now worker_id token) t
      λ k e. starts now worker_id token e)
apply-Changes (op_chunk now worker_id token job_id size) t = or_stale-Changes t _ (
    update_row-Changes job_id (can_stream now worker_id token) (streamed now worker_id token size) t
      λ k e. streams now worker_id token size e)
apply-Changes (op_complete now worker_id token job_id) t =
    update_row-Changes job_id (can_complete now worker_id token) (ended now worker_id token) t
      λ k e. completes now worker_id token e
apply-Changes (op_ambiguous now worker_id token job_id failure) t =
    update_row-Changes job_id (can_give_up now worker_id token)
      (given_up now worker_id token failure) t λ k e. gives_up now worker_id token failure e
apply-Changes (op_cut_off now worker_id token job_id) t =
    update_row-Changes job_id (can_give_up now worker_id token) (cut_off now worker_id token) t
      λ k e. cuts_off now worker_id token e
apply-Changes (op_cancel now job_id org ws user) t = or_missing-Changes t _ (
    update_row-Changes job_id (can_cancel org ws user) (withdrawn now) t
      λ k e. withdraws now org ws user e)
apply-Changes (op_recover now) t = sweep-Changes now t

-- A property of jobs that holds of every row.
abbrev pub Everywhere : (TtsJob → Type 0) → Table → Type 0
Everywhere P t = (id : String) (j : TtsJob) → lookup id t ≡ some j → P j

-- The job that is there, later: it is never lost.
pub record Later (P : TtsJob → Type 0) (id : String) (t : Table) : Type 0 where
  pub new : TtsJob
  pub kept : lookup id t ≡ some new
  pub holds : P new

module _ (P : TtsJob → Type 0) (keeps : (j k : TtsJob) → P j → Moves j k → P k) where
  Change-Later :
      (id : String) (j : TtsJob) (t' : Table) (o o' : Option TtsJob)
      → lookup id t' ≡ o'
      → o ≡ some j
      → P j
      → Change o o'
      → Later P id t'
  Change-Later id j t' o o' e known p absent = absurd (cc)
  Change-Later id j t' o o' e known p (appears now r) = absurd (cc)
  Change-Later id j t' o o' e known p (becomes {j = i} {k = k} m) = record {
    new = k;
    kept = e;
    holds = keeps i k (subst P (cc) p) m;
  }

  -- What holds of one job and is kept by every move holds of it after any calls.
  pub run-Later : (id : String) (ops : List Op) (t : Table) → Later P id t → Later P id (run ops t)
  unfolding run
  run-Later id [] t l = l
  run-Later id (op ∷ ops) t l = run-Later id ops (apply op t) (
      Change-Later id l.new (apply op t) (lookup id t) (lookup id (apply op t)) refl l.kept l.holds
        (apply-Changes op t id))

  module _ (new : (now : ℕ) (r : Request) → P (fresh_job now r)) where
    Change-keeps :
        (o o' : Option TtsJob)
        → ((j : TtsJob) → o ≡ some j → P j)
        → Change o o'
        → (j : TtsJob) → o' ≡ some j
        → P j
    Change-keeps o o' p absent j e = absurd (cc)
    Change-keeps o o' p (appears now r) j e = subst P (cc) (new now r)
    Change-keeps o o' p (becomes {j = i} {k = k} m) j e = subst P (cc) (keeps i k (p i refl) m)

    -- What holds of new jobs and is kept by every move holds of every job.
    pub run-Everywhere : (ops : List Op) (t : Table) → Everywhere P t → Everywhere P (run ops t)
    unfolding run
    run-Everywhere [] t p = p
    run-Everywhere (op ∷ ops) t p =
        run-Everywhere ops (apply op t)
          λ id. Change-keeps (lookup id t) (lookup id (apply op t)) (p id) (apply-Changes op t id)
