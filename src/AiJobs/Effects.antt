-- ===== src/AiJobs/Effects.antt =====
-- What each operation of app/core/ai_jobs.py and app/core/ai_orchestration.py does to the jobs and
-- their approvals, for runs of any operations.
use Prim.Native.String.{len}
use codestra_middleware.Base.{
  Result-cases, nat_eq, pair_eq, ℕ, ◌+◌, ◌≡◌, refl, ap, subst, Bool, true, false, Option, none,
  some, String, ok, err, ltb, string_eq, lookup, >>=-elim, raise_if-elim, Bool-cases, inl, inr,
  arith,
}
use codestra_middleware.Raised.{Outcome}
use codestra_middleware.AiJobs.{
  JobState, leased, cancel_requested, completed, Job, Chunk, Queue, is_after, is_absent,
}
use codestra_middleware.AiJobs.Leases.{
  is_held, has_lease, assert_lease, renewed, Worker, heartbeat, insert_chunk, append_chunk,
}
use codestra_middleware.AiJobs.Endings.{
  Report, finish_in, finish, cancel_held, was_cancelled, cancel_again, worker_cancel,
}
use codestra_middleware.AiJobs.Moves.{
  renews, grows, finishes, stops, stays, moves, Change, unchanged, set-Change,
}

-- At every identifier.
abbrev pub Changes : Bool → Queue → Queue → Type 0
Changes may_claim q q' =
    (id : String)
    → Change may_claim (lookup id q.jobs) (lookup id q.approvals) (lookup id q'.jobs)
        (lookup id q'.approvals)

abbrev pub same : (may_claim : Bool) (q : Queue) → Changes may_claim q q
same may_claim q id = unchanged (lookup id q.jobs) (lookup id q.approvals)

-- The queue of a result.
abbrev queue_of {ℓ} : {A : Type ℓ} → Queue → Outcome (A × Queue) → Queue
queue_of q (ok y) = y.1
queue_of q (err e) = q

has_lease-parts :
    (now : ℕ) (worker_id : String) (token : ℕ) (org ws : Option String) (allow : Bool) (j : Job)
    → has_lease now worker_id token org ws allow j ≡ true
    → (is_held allow j.state ≡ true) × (is_after j.lease_expires_at now ≡ true)
unfolding has_lease
has_lease-parts now worker_id token org ws allow j h = ground arith

pub assert_lease-has :
    (now : ℕ) (job_id worker_id : String) (token : ℕ) (org ws : Option String) (allow : Bool)
    (q : Queue) (j : Job)
    → assert_lease now job_id worker_id token org ws allow q ≡ ok j
    → (lookup job_id q.jobs ≡ some j) × (has_lease now worker_id token org ws allow j ≡ true)
unfolding assert_lease
assert_lease-has now job_id worker_id token org ws allow q j e = ground arith

pub assert_lease-found :
    (now : ℕ) (job_id worker_id : String) (token : ℕ) (org ws : Option String) (allow : Bool)
    (q : Queue) (j : Job)
    → assert_lease now job_id worker_id token org ws allow q ≡ ok j
    → (lookup job_id q.jobs ≡ some j)
      × (is_held allow j.state ≡ true)
      × (is_after j.lease_expires_at now ≡ true)
assert_lease-found now job_id worker_id token org ws allow q j e =
    let (found, has) = assert_lease-has now job_id worker_id token org ws allow q j e in
    let (held, live) = has_lease-parts now worker_id token org ws allow j has in (found, held, live)

pub is_held-true : (allow : Bool) (s : JobState) → is_held allow s ≡ true → is_held true s ≡ true
unfolding is_held
is_held-true allow leased e = refl
is_held-true allow cancel_requested e = refl
is_held-true allow _ e = e

pub heartbeat-Changes :
    (b : Bool) (now : ℕ) (job_id worker_id : String) (token lease_seconds : ℕ) (w : Worker)
    (org ws : Option String) (q q' : Queue) (t : ℕ)
    → heartbeat now job_id worker_id token lease_seconds w org ws q ≡ ok (t, q')
    → Changes b q q'
unfolding heartbeat
heartbeat-Changes b now job_id worker_id token lease_seconds w org ws q q' t e =
    >>=-elim (assert_lease now job_id worker_id token org ws true q) _ e λ j asserted e₁.
      let (found, held, live) =
        assert_lease-found now job_id worker_id token org ws true q j asserted in
      subst (Changes b q) (ap (queue_of q) e₁) (
        set-Change job_id j (renewed now lease_seconds j) q.jobs q.approvals found
          (moves stays (renews now lease_seconds held live)))

insert_chunk-Changes :
    (b : Bool) (now : ℕ) (job_id : String) (token sequence : ℕ) (content : String) (j : Job)
    (q : Queue) (known : Option Chunk)
    → lookup job_id q.jobs ≡ some j
    → is_held false j.state ≡ true
    → is_after j.lease_expires_at now ≡ true
    → Changes b q (insert_chunk now job_id token sequence content j q known).1
unfolding insert_chunk
insert_chunk-Changes b now job_id token sequence content j q (some c) found held live = same b q
insert_chunk-Changes b now job_id token sequence content j q none found held live =
    set-Change job_id j _ q.jobs q.approvals found (moves stays (grows now (len content) held live))

pub append_chunk-Changes :
    (b : Bool) (now : ℕ) (job_id worker_id : String) (token sequence : ℕ) (content : String)
    (limit : ℕ) (org ws : Option String) (q q' : Queue) (inserted : Bool)
    → append_chunk now job_id worker_id token sequence content limit org ws q ≡ ok (inserted, q')
    → Changes b q q'
unfolding append_chunk
append_chunk-Changes b now job_id worker_id token sequence content limit org ws q q' inserted e =
    >>=-elim (assert_lease now job_id worker_id token org ws false q) _ e λ j asserted e₁.
      raise_if-elim (ltb limit (j.output_bytes + len content)) _ _ e₁ λ fits e₂.
        let (found, held, live) =
          assert_lease-found now job_id worker_id token org ws false q j asserted in
        subst (Changes b q) (ap (queue_of q) e₂) (
          insert_chunk-Changes b now job_id token sequence content j q
            (lookup (job_id, sequence) q.chunks) found held live)

pub finish-Changes :
    (b : Bool) (now : ℕ) (job_id worker_id : String) (token : ℕ) (r : Report)
    (org ws : Option String) (q q' : Queue) (s : JobState)
    → r.completion_state ≡ completed
    → finish now job_id worker_id token r org ws q ≡ ok (s, q')
    → Changes b q q'
unfolding finish finish_in
finish-Changes b now job_id worker_id token r org ws q q' s completes e =
    >>=-elim (assert_lease now job_id worker_id token org ws true q) _ e λ j asserted e₁.
      let (found, held, live) =
        assert_lease-found now job_id worker_id token org ws true q j asserted in
      subst (Changes b q) (ap (queue_of q) e₁) (
        set-Change job_id j _ q.jobs q.approvals found
          (moves stays (finishes now r held live completes)))

cancel_held-Changes :
    (b : Bool) (now : ℕ) (job_id worker_id : String) (token : ℕ) (correlation_id : String) (j : Job)
    (q q' : Queue) (x : Bool × JobState)
    → lookup job_id q.jobs ≡ some j
    → is_held true j.state ≡ true
    → is_after j.lease_expires_at now ≡ true
    → cancel_held now job_id worker_id token correlation_id j q ≡ ok (x, q')
    → Changes b q q'
unfolding cancel_held
cancel_held-Changes b now job_id worker_id token correlation_id j q q' x found held live e =
    elim (Bool-cases (is_absent j.cancel_requested_at)) [
      | inl unasked ↦ subst (Changes b q) (ap (queue_of q) (rw unasked at e)) (same b q)
      | inr asked ↦
          subst (Changes b q) (ap (queue_of q) (rw asked at e))
            (set-Change job_id j _ q.jobs q.approvals found (moves stays (stops now held live)))
    ]

cancel_again-Changes :
    (b : Bool) (test : Bool) (q q' : Queue) (x : Bool × JobState)
    → cancel_again test q ≡ ok (x, q')
    → Changes b q q'
unfolding cancel_again
cancel_again-Changes b true q q' x e = subst (Changes b q) (ap (queue_of q) e) (same b q)
cancel_again-Changes b false q q' x e = absurd (cc)

pub worker_cancel-Changes :
    (b : Bool) (now : ℕ) (job_id worker_id : String) (token : ℕ) (org ws correlation_id : String)
    (q q' : Queue) (x : Bool × JobState)
    → worker_cancel now job_id worker_id token org ws correlation_id q ≡ ok (x, q')
    → Changes b q q'
unfolding worker_cancel
worker_cancel-Changes b now job_id worker_id token org ws correlation_id q q' x e =
    elim (Result-cases (assert_lease now job_id worker_id token (some org) (some ws) true q)) [
      | inl (j, asserted) ↦
          let (found, held, live) =
            assert_lease-found now job_id worker_id token (some org) (some ws) true q j asserted in
          cancel_held-Changes b now job_id worker_id token correlation_id j q q' x found held live
            (rw (asserted, worker_cancel) at e)
      | inr (z, refused) ↦
          cancel_again-Changes b (was_cancelled job_id worker_id token org ws q) q q' x
            (rw (refused, worker_cancel) at e)
    ]
