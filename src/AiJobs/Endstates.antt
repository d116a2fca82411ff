-- ===== src/AiJobs/Endstates.antt =====
-- States of AI jobs that last (app/core/ai_jobs.py and app/core/ai_orchestration.py).
use codestra_middleware.Base.{
  ℕ, ◌≡◌, refl, sym, ap, subst, ◌∙◌, Bool, true, false, List, Option, none, some, String, ok,
  lookup, lookup-insert_self, string_eq, arith, if◌then◌else◌,
}
use codestra_middleware.AiJobs.{
  JobState, completed, failed, cancel_requested, cancelled, expired, rejected, Job, ApprovalState,
  Approval, Queue, is_after,
}
use codestra_middleware.AiJobs.Leases.{is_held}
use codestra_middleware.AiJobs.Admission.{is_waiting}
use codestra_middleware.AiJobs.Endings.{is_dead}
use codestra_middleware.AiJobs.Recovery.{
  loses_cancelled, loses_retried, loses_dead, outlives_deadline,
}
use codestra_middleware.AiJobs.Approvals.{
  is_pending, is_cancellable, is_idle, cancel_asked, event, cancel,
}
use codestra_middleware.AiJobs.Moves.{
  Moves, claims, renews, grows, finishes, proposes, stops, lapses_cancelled, lapses_retried,
  lapses_dead, passes_deadline, asks, decides, revives,
}
use codestra_middleware.AiJobs.Runs.{Hashes, Op, run, AllFresh}
use codestra_middleware.AiJobs.Histories.{run-Later, Rows}
use codestra_middleware.AiJobs.Sweeps.{cancel-asked}
use codestra_middleware.AiJobs.Decisions.{agrees, IsRouted, AllRouted, no_lease-lost}

abbrev pub is_final : JobState → Bool
is_final completed = true
is_final failed = true
is_final cancelled = true
is_final expired = true
is_final rejected = true
is_final _ = false

-- The state is final, and no approval is open that could still be decided.
abbrev IsFinal : JobState → Job → Option Approval → Type 0
IsFinal s j a =
    (j.state ≡ s) × (is_final s ≡ true) × ((b : Approval) → a ≡ some b → is_pending b.state ≡ false)

final-closed :
    (s : JobState)
    → is_final s ≡ true
    → (is_waiting s ≡ false)
      × (is_held true s ≡ false)
      × (is_held false s ≡ false)
      × (is_cancellable s ≡ false)
      × (is_dead s ≡ false)
unfolding is_waiting is_held
final-closed s e = ground arith

final-not_lost :
    (now : ℕ) (org ws : Option String) (j : Job)
    → is_final j.state ≡ true
    → (loses_cancelled now org ws j ≡ false)
      × (loses_retried now org ws j ≡ false)
      × (loses_dead now org ws j ≡ false)
      × (outlives_deadline now org ws j ≡ false)
unfolding loses_cancelled loses_retried loses_dead outlives_deadline
final-not_lost now org ws j e = ground arith

module _ (s : JobState) where
  closed :
      (j : Job) (a : Option Approval)
      → IsFinal s j a
      → (is_waiting j.state ≡ false)
        × (is_held true j.state ≡ false)
        × (is_held false j.state ≡ false)
        × (is_cancellable j.state ≡ false)
        × (is_dead j.state ≡ false)
  closed j a p = final-closed j.state (subst (λ t. is_final t ≡ true) (sym p.0) p.1)

  not_lost :
      (now : ℕ) (org ws : Option String) (j : Job) (a : Option Approval)
      → IsFinal s j a
      → (loses_cancelled now org ws j ≡ false)
        × (loses_retried now org ws j ≡ false)
        × (loses_dead now org ws j ≡ false)
        × (outlives_deadline now org ws j ≡ false)
  not_lost now org ws j a p =
      final-not_lost now org ws j (subst (λ t. is_final t ≡ true) (sym p.0) p.1)

  Moves-IsFinal :
      (b : Bool) (k l : Job) (x y : Option Approval)
      → IsFinal s k x
      → Moves b k x l y
      → IsFinal s l y
  Moves-IsFinal b k l x y p (claims now c may waits) = absurd (cc (closed k x p).0)
  Moves-IsFinal b k l x y p (renews now t held live) = absurd (cc (closed k x p).1)
  Moves-IsFinal b k l x y p (grows now t held live) = absurd (cc (closed k x p).2)
  Moves-IsFinal b k l x y p (finishes now r held live ends) = absurd (cc (closed k x p).1)
  Moves-IsFinal b k l x y p (proposes now r c waits held live works ends) =
      absurd (cc (closed k x p).1)
  Moves-IsFinal b k l x y p (stops now held live) = absurd (cc (closed k x p).1)
  Moves-IsFinal b k l x y p (lapses_cancelled now org ws) = rw ((not_lost now org ws k x p).0) p
  Moves-IsFinal b k l x y p (lapses_retried now org ws) = rw ((not_lost now org ws k x p).1) p
  Moves-IsFinal b k l x y p (lapses_dead now org ws) = rw ((not_lost now org ws k x p).2) p
  Moves-IsFinal b k l x y p (passes_deadline now org ws) = rw ((not_lost now org ws k x p).3) p
  Moves-IsFinal b k l x y p (asks now open_state) = absurd (cc (closed k x p).3)
  Moves-IsFinal b k l x y p (decides now granted c found waits) = absurd (cc (p.2 c found))
  Moves-IsFinal b k l x y p (revives now dead few c found granted) = absurd (cc (closed k x p).4)

-- A job that is completed, failed, cancelled, expired or rejected, and of which no approval is open, is
-- so for ever: it is never lost, and no calls bring it to another state.
pub run_keeps_final :
    (h : Hashes) (ops : List Op) (q : Queue) (job_id : String) (j : Job)
    → AllFresh h ops q
    → lookup job_id q.jobs ≡ some j
    → is_final j.state ≡ true
    → ((b : Approval) → lookup job_id q.approvals ≡ some b → is_pending b.state ≡ false)
    → (k : Job) × (lookup job_id (run h ops q).jobs ≡ some k) × (k.state ≡ j.state)
run_keeps_final h ops q job_id j fresh found final closed_approval =
    let l =
      run-Later h (IsFinal j.state) (λ b k l x y p m. Moves-IsFinal j.state b k l x y p m) job_id
        ops q fresh (record { new = j; kept = found; holds = (refl, final, closed_approval) }) in
    (l.new, l.kept, l.holds.0)

-- A job whose approval was given, and whose cancellation was asked for after that.
abbrev IsStuck : Job → Option Approval → Type 0
IsStuck j a =
    (j.state ≡ cancel_requested)
    × (j.lease_expires_at ≡ none)
    × ((b : Approval) → a ≡ some b → is_pending b.state ≡ false)

stuck-not_lost :
    (now : ℕ) (org ws : Option String) (j : Job)
    → j.state ≡ cancel_requested
    → outlives_deadline now org ws j ≡ false
unfolding outlives_deadline
stuck-not_lost now org ws j e = ground arith

no_lease-over : (o : Option ℕ) (now : ℕ) → o ≡ none → is_after o now ≡ false
unfolding is_after
no_lease-over o now e = ground arith

Moves-IsStuck :
    (b : Bool) (k l : Job) (x y : Option Approval) → IsStuck k x → Moves b k x l y → IsStuck l y
unfolding is_waiting
Moves-IsStuck b k l x y p (claims now c may waits) = absurd (ground (arith, p.0))
Moves-IsStuck b k l x y p (renews now t held live) =
    absurd (cc (no_lease-over k.lease_expires_at now p.1))
Moves-IsStuck b k l x y p (grows now t held live) =
    absurd (cc (no_lease-over k.lease_expires_at now p.1))
Moves-IsStuck b k l x y p (finishes now r held live ends) =
    absurd (cc (no_lease-over k.lease_expires_at now p.1))
Moves-IsStuck b k l x y p (proposes now r c waits held live works ends) =
    absurd (cc (no_lease-over k.lease_expires_at now p.1))
Moves-IsStuck b k l x y p (stops now held live) =
    absurd (cc (no_lease-over k.lease_expires_at now p.1))
Moves-IsStuck b k l x y p (lapses_cancelled now org ws) = rw ((no_lease-lost now org ws k p.1).0) p
Moves-IsStuck b k l x y p (lapses_retried now org ws) = rw ((no_lease-lost now org ws k p.1).1) p
Moves-IsStuck b k l x y p (lapses_dead now org ws) = rw ((no_lease-lost now org ws k p.1).2) p
Moves-IsStuck b k l x y p (passes_deadline now org ws) = rw (stuck-not_lost now org ws k p.0) p
Moves-IsStuck b k l x y p (asks now open_state) =
    (ap (λ s. if is_idle s then cancelled else cancel_requested) p.0, p.1, p.2)
Moves-IsStuck b k l x y p (decides now granted c found waits) = absurd (cc (p.2 c found))
Moves-IsStuck b k l x y p (revives now dead few c found granted) = absurd (ground (arith, p.0))

agreed-busy : (s : JobState) → agrees ApprovalState.approved s ≡ true → is_idle s ≡ false
unfolding agrees
agreed-busy s e = ground arith

-- A cancellation that is accepted after the approval was given never takes effect: the job is there
-- after any calls, but still waits for its cancellation, since nobody holds it whose lease could end.
-- The approvals agree with their jobs at first.
pub cancelled_approval_hangs :
    (h : Hashes) (ops : List Op) (now : ℕ) (job_id tenant_id ws correlation_id : String)
    (q q' : Queue) (s : JobState) (a : Approval)
    → AllRouted q
    → lookup job_id q.approvals ≡ some a
    → a.state ≡ ApprovalState.approved
    → cancel now job_id tenant_id ws correlation_id q ≡ ok (s, q')
    → AllFresh h ops q'
    → (k : Job) × (lookup job_id (run h ops q').jobs ≡ some k) × (k.state ≡ cancel_requested)
unfolding event
cancelled_approval_hangs h ops now job_id tenant_id ws correlation_id q q' s a routed approval given
      e fresh =
    let (j, found, open_state, left) =
      cancel-asked now job_id tenant_id ws correlation_id q q' s e in
    let (agreed, free) =
      subst (λ x. Rows IsRouted (some j) x) approval
        (subst (λ o. Rows IsRouted o (lookup job_id q.approvals)) found (routed job_id)) in
    let busy = agreed-busy j.state (subst (λ x. agrees x j.state ≡ true) given agreed) in
    let l =
      run-Later h IsStuck (λ b k m x y p w. Moves-IsStuck b k m x y p w) job_id ops q' fresh
        (record {
          new = cancel_asked now j;
          kept = ap (λ x. lookup job_id x.jobs) (sym left) ∙ lookup-insert_self job_id _ q.jobs;
          holds = (
            ap (λ x. if x then cancelled else cancel_requested) busy,
            free,
            closed_by_grant (lookup job_id q.approvals) (lookup job_id q'.approvals) a approval
                given (ap (λ x. lookup job_id x.approvals) (sym left)),
          );
        }) in
    (l.new, l.kept, l.holds.0)
  where
    closed_by_grant :
        (o o' : Option Approval) (x : Approval)
        → o ≡ some x
        → x.state ≡ ApprovalState.approved
        → o' ≡ o
        → (b : Approval) → o' ≡ some b
        → is_pending b.state ≡ false
    closed_by_grant o o' x e g same b f =
        let is_x : x ≡ b = cc in ap is_pending (sym (ap (λ z. z.state) is_x) ∙ g)
