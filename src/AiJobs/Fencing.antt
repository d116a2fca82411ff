-- ===== src/AiJobs/Fencing.antt =====
-- Fencing tokens (app/core/ai_jobs.py): what the holder of an older token can still do.
use codestra_middleware.Base.{
  ℕ, ◌<◌, ◌≡◌, refl, ap, subst, Bool, true, false, not, ◌||◌, List, Option, none, some, String, ok,
  err, ◌>>=◌, ◌>>◌, raise_if, lookup, string_eq, ◌==◌, arith,
}
use codestra_middleware.Raised.{Raised, Outcome, permission_error, http_exception}
use codestra_middleware.AiJobs.{Job, JobState, Approval, Queue}
use codestra_middleware.AiJobs.Leases.{has_lease, assert_lease, heartbeat, append_chunk}
use codestra_middleware.AiJobs.Endings.{Report, finish, was_cancelled, cancel_again, worker_cancel}
use codestra_middleware.AiJobs.Approvals.{
  AiResult, WorkerPrincipal, as_conflict, completed_result_status, complete_with, complete_new,
  complete_job,
}
use codestra_middleware.AiJobs.Moves.{
  Moves, claims, renews, grows, finishes, proposes, stops, lapses_cancelled, lapses_retried,
  lapses_dead, passes_deadline, asks, decides, revives,
}
use codestra_middleware.AiJobs.Runs.{
  Op, op_heartbeat, op_chunk, op_finish, op_complete, op_worker_cancel, Hashes, apply, run,
  AllFresh, after,
}
use codestra_middleware.AiJobs.Histories.{run-Later}

-- The tokens of a job only grow.
abbrev Reaches : ℕ → Job → Option Approval → Type 0
Reaches token j a = token < j.fencing_token

Moves-Reaches :
    (token : ℕ) (b : Bool) (k l : Job) (x y : Option Approval)
    → Reaches token k x
    → Moves b k x l y
    → Reaches token l y
Moves-Reaches token b k l x y p (claims now c may waits) = omega arith
Moves-Reaches token b k l x y p (renews now s held live) = p
Moves-Reaches token b k l x y p (grows now s held live) = p
Moves-Reaches token b k l x y p (finishes now r held live ends) = p
Moves-Reaches token b k l x y p (proposes now r c waits held live works ends) = p
Moves-Reaches token b k l x y p (stops now held live) = p
Moves-Reaches token b k l x y p (lapses_cancelled now org ws) = ground arith
Moves-Reaches token b k l x y p (lapses_retried now org ws) = ground arith
Moves-Reaches token b k l x y p (lapses_dead now org ws) = ground arith
Moves-Reaches token b k l x y p (passes_deadline now org ws) = ground arith
Moves-Reaches token b k l x y p (asks now open_state) = p
Moves-Reaches token b k l x y p (decides now granted c found waits) = p
Moves-Reaches token b k l x y p (revives now dead few c found granted) = p

-- The job and the token that a worker's call names.
abbrev pub token_of : Op → Option (String × ℕ)
token_of (op_heartbeat now job_id worker_id token lease_seconds w s) = some (job_id, token)
token_of (op_chunk now job_id worker_id token sequence content limit s) = some (job_id, token)
token_of (op_finish now job_id worker_id token has_failed error retryable corr details s) =
    some (job_id, token)
token_of (op_complete now approval_id job_id worker_id token result p) = some (job_id, token)
token_of (op_worker_cancel now job_id worker_id token org ws corr) = some (job_id, token)
token_of _ = none

abbrev pub stale {ℓ} : {A : Type ℓ} → Outcome A
stale = err (permission_error "stale_or_invalid_lease")

module _ (q : Queue) (job_id : String) (token : ℕ) (j : Job) (found : lookup job_id q.jobs ≡ some j)
    (older : token < j.fencing_token) where
  has_lease-older :
      (now : ℕ) (worker_id : String) (org ws : Option String) (allow : Bool)
      → has_lease now worker_id token org ws allow j ≡ false
  unfolding has_lease
  has_lease-older now worker_id org ws allow = ground arith

  pub assert_lease-stale :
      (now : ℕ) (worker_id : String) (org ws : Option String) (allow : Bool)
      → assert_lease now job_id worker_id token org ws allow q ≡ stale
  unfolding assert_lease
  assert_lease-stale now worker_id org ws allow =
      ground (arith, found, has_lease-older now worker_id org ws allow)

  was_cancelled-older :
      (worker_id org ws : String) → was_cancelled job_id worker_id token org ws q ≡ false
  unfolding was_cancelled
  was_cancelled-older worker_id org ws = ground (arith, found)

bind-raised {ℓ κ} :
    {A : Type ℓ} {B : Type κ} (m : Outcome A) (f : A → Outcome B) {x : Raised}
    → m ≡ err x
    → (m >>= f) ≡ err x
bind-raised (err y) f e = cc
bind-raised (ok a) f e = absurd (cc)

after-raised {ℓ} :
    {A : Type ℓ} (m : Outcome (A × Queue)) (q : Queue) {x : Raised} → m ≡ err x → after m q ≡ q
after-raised (err y) q e = refl
after-raised (ok a) q e = absurd (cc)

after_bind {ℓ κ} :
    {A : Type ℓ} {B : Type κ} (m : Outcome A) (f : A → Outcome (B × Queue)) (q : Queue)
    → ((a : A) → after (f a) q ≡ q)
    → after (m >>= f) q ≡ q
after_bind (err x) f q k = refl
after_bind (ok a) f q k = k a

after_raise {ℓ} :
    {A : Type ℓ} (b : Bool) (x : Raised) (k : Outcome (A × Queue)) (q : Queue)
    → after k q ≡ q
    → after (raise_if b x >> k) q ≡ q
after_raise true x k q e = refl
after_raise false x k q e = e

raised_if {ℓ} :
    {A : Type ℓ} (b : Bool) (x : Raised) (k : Outcome A) (P : Outcome A → Type 0)
    → P (err x)
    → P k
    → P (raise_if b x >> k)
raised_if true x k P p r = p
raised_if false x k P p r = r

module _ (q : Queue) (job_id : String) (token : ℕ) (j : Job) (found : lookup job_id q.jobs ≡ some j)
    (older : token < j.fencing_token) where
  finish-stale :
      (now : ℕ) (worker_id : String) (r : Report) (org ws : Option String)
      → finish now job_id worker_id token r org ws q ≡ stale
  unfolding finish
  finish-stale now worker_id r org ws =
      bind-raised _ _ (assert_lease-stale q job_id token j found older now worker_id org ws true)

  worker_cancel-stale :
      (now : ℕ) (worker_id org ws corr : String)
      → worker_cancel now job_id worker_id token org ws corr q ≡ stale
  unfolding worker_cancel cancel_again
  worker_cancel-stale now worker_id org ws corr =
      rw
        (
          assert_lease-stale q job_id token j found older now worker_id (some org) (some ws) true,
          was_cancelled-older q job_id token j found older worker_id org ws,
          worker_cancel,
          cancel_again,
        )
        refl

  complete_with-stale :
      (now : ℕ) (approval_id worker_id : String) (result : Option AiResult) (p : WorkerPrincipal)
      → (x : Raised) × (complete_with now approval_id job_id worker_id token result p q ≡ err x)
  unfolding complete_with
  complete_with-stale now approval_id worker_id none p = (
    http_exception 409 "stale_or_invalid_lease",
    ap as_conflict (finish-stale now worker_id _ (some p.tenant_id) (some p.workspace_id)),
  )
  complete_with-stale now approval_id worker_id (some result) p =
      raised_if (not (result.job_id == job_id) || not (result.command_id == job_id)) _ _
        (λ m. (x : Raised) × (m ≡ err x)) (_, refl)
        (
          http_exception 409 "stale_or_invalid_lease",
          bind-raised _ _ (
              ap as_conflict (
                assert_lease-stale q job_id token j found older now worker_id (some p.tenant_id)
                  (some p.workspace_id) false)),
        )

  complete_new-stale :
      (now : ℕ) (approval_id worker_id : String) (result : Option AiResult) (p : WorkerPrincipal)
      (known : Option JobState)
      → after (complete_new now approval_id job_id worker_id token result p q known) q ≡ q
  unfolding complete_new
  complete_new-stale now approval_id worker_id result p (some state) = refl
  complete_new-stale now approval_id worker_id result p none =
      let (x, raised) = complete_with-stale now approval_id worker_id result p in
      after-raised _ q (bind-raised _ _ raised)

  complete_job-stale :
      (now : ℕ) (approval_id worker_id : String) (result : Option AiResult) (p : WorkerPrincipal)
      → after (complete_job now approval_id job_id worker_id token result p q) q ≡ q
  unfolding complete_job
  complete_job-stale now approval_id worker_id result p =
      after_raise {A = JobState × Bool} (not (worker_id == p.worker_id)) _ _ q (
        after_bind {B = JobState × Bool}
          (as_conflict (completed_result_status job_id p.tenant_id p.workspace_id result q))
          (complete_new now approval_id job_id worker_id token result p q) q
          (complete_new-stale now approval_id worker_id result p))

at_id :
    {job_id : String} {token : ℕ} {j : Job} (q : Queue) (id : String) (t : ℕ)
    → ◌≡◌ {A = Option (String × ℕ)} (some (id, t)) (some (job_id, token))
    → lookup job_id q.jobs ≡ some j
    → lookup id q.jobs ≡ some j
at_id {j = j} q id t e found = subst (λ x. lookup x q.jobs ≡ some j) (cc) found

at_token :
    {job_id : String} {token : ℕ} {n : ℕ} (id : String) (t : ℕ)
    → ◌≡◌ {A = Option (String × ℕ)} (some (id, t)) (some (job_id, token))
    → token < n
    → t < n
at_token {n = n} id t e older = subst (λ x. x < n) (cc) older

-- A worker's call with an older token leaves the tables as they are.
stale-unchanged :
    (h : Hashes) (op : Op) (q : Queue) (job_id : String) (token : ℕ) (j : Job)
    → token_of op ≡ some (job_id, token)
    → lookup job_id q.jobs ≡ some j
    → token < j.fencing_token
    → apply h op q ≡ q
unfolding apply heartbeat append_chunk
stale-unchanged h (op_heartbeat now id worker_id t lease_seconds w s) q job_id token j e found
      older =
    after-raised _ q (
      bind-raised _ _ (
        assert_lease-stale q id t j (at_id q id t e found) (at_token id t e older) now worker_id s.0
          s.1 true))
stale-unchanged h (op_chunk now id worker_id t sequence content limit s) q job_id token j e found
      older =
    after-raised _ q (
      bind-raised _ _ (
        assert_lease-stale q id t j (at_id q id t e found) (at_token id t e older) now worker_id s.0
          s.1 false))
stale-unchanged h (op_finish now id worker_id t has_failed error retryable corr details s) q job_id
      token j e found older =
    after-raised _ q
      (finish-stale q id t j (at_id q id t e found) (at_token id t e older) now worker_id _ s.0 s.1)
stale-unchanged h (op_complete now approval_id id worker_id t result p) q job_id token j e found
      older =
    complete_job-stale q id t j (at_id q id t e found) (at_token id t e older) now approval_id
      worker_id result p
stale-unchanged h (op_worker_cancel now id worker_id t org ws corr) q job_id token j e found older =
    after-raised _ q (
      worker_cancel-stale q id t j (at_id q id t e found) (at_token id t e older) now worker_id org
        ws corr)
stale-unchanged h _ q job_id token j e found older = absurd (cc)

-- Once a job has been claimed again, nothing that a worker calls under an older token changes the
-- tables in any way, whatever calls came in between: no heartbeat, chunk, completion, failure or
-- cancellation of the earlier holder is taken. New jobs have fresh identifiers.
pub stale_token_refused :
    (h : Hashes) (ops : List Op) (op : Op) (q : Queue) (job_id : String) (token : ℕ) (j : Job)
    → AllFresh h ops q
    → lookup job_id q.jobs ≡ some j
    → token < j.fencing_token
    → token_of op ≡ some (job_id, token)
    → apply h op (run h ops q) ≡ run h ops q
stale_token_refused h ops op q job_id token j fresh found older e =
    let l =
      run-Later h (Reaches token) (λ b k l x y p m. Moves-Reaches token b k l x y p m) job_id ops q
        fresh (record { new = j; kept = found; holds = older }) in
    stale-unchanged h op (run h ops q) job_id token l.new e l.kept l.holds
