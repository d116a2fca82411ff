-- ===== src/AiJobs/Decisions.antt =====
-- Approvals of AI jobs (app/core/ai_orchestration.py and app/core/ai_jobs.py): what becomes of a job
-- once its approval is asked for, and of a job in the dead letters.
use codestra_middleware.Base.{
  ℕ, ◌≡◌, refl, subst, Bool, true, false, List, Option, none, some, String, lookup, string_eq,
  arith, if◌then◌else◌,
}
use codestra_middleware.AiJobs.{
  JobState, cancel_requested, cancelled, approval_required, approved, rejected, Job, ApprovalState,
  Approval, Queue, is_after,
}
use codestra_middleware.AiJobs.Leases.{is_held}
use codestra_middleware.AiJobs.Admission.{is_waiting}
use codestra_middleware.AiJobs.Endings.{Report, final_state, is_dead}
use codestra_middleware.AiJobs.Recovery.{
  loses_cancelled, loses_retried, loses_dead, is_open, outlives_deadline,
}
use codestra_middleware.AiJobs.Approvals.{is_pending, is_cancellable, is_idle}
use codestra_middleware.AiJobs.Moves.{
  Moves, claims, renews, grows, finishes, proposes, stops, lapses_cancelled, lapses_retried,
  lapses_dead, passes_deadline, asks, decides, revives,
}
use codestra_middleware.AiJobs.Runs.{Op, Hashes, run, AllFresh}
use codestra_middleware.AiJobs.Histories.{run-Later, Rows, run-Rows}

-- The states that a job can have beside an approval.
unfoldable pub agrees : ApprovalState → JobState → Bool
agrees ApprovalState.pending approval_required = true
agrees ApprovalState.pending cancelled = true
agrees ApprovalState.approved approved = true
agrees ApprovalState.approved cancel_requested = true
agrees ApprovalState.rejected rejected = true
agrees _ _ = false

-- A job with an approval is held by nobody, and its state agrees with it.
abbrev pub IsRouted : Job → Option Approval → Type 0
IsRouted j none = Unit
IsRouted j (some a) = (agrees a.state j.state ≡ true) × (j.lease_expires_at ≡ none)

agrees-not_waiting : (s : ApprovalState) (t : JobState) → agrees s t ≡ true → is_waiting t ≡ false
unfolding agrees is_waiting
agrees-not_waiting ApprovalState.pending t e = ground arith
agrees-not_waiting ApprovalState.approved t e = ground arith
agrees-not_waiting ApprovalState.rejected t e = ground arith

agrees-not_dead : (s : ApprovalState) (t : JobState) → agrees s t ≡ true → is_dead t ≡ false
unfolding agrees
agrees-not_dead ApprovalState.pending t e = ground arith
agrees-not_dead ApprovalState.approved t e = ground arith
agrees-not_dead ApprovalState.rejected t e = ground arith

proposed-agrees :
    (r : Report) (j : Job)
    → r.has_failed ≡ false
    → r.completion_state ≡ approval_required
    → agrees ApprovalState.pending (final_state r j) ≡ true
unfolding agrees final_state
proposed-agrees r j works ends = ground arith

-- A job that nobody holds loses no lease.
pub no_lease-lost :
    (now : ℕ) (org ws : Option String) (j : Job)
    → j.lease_expires_at ≡ none
    → (loses_cancelled now org ws j ≡ false)
      × (loses_retried now org ws j ≡ false)
      × (loses_dead now org ws j ≡ false)
unfolding loses_cancelled loses_retried loses_dead
no_lease-lost now org ws j e = ground arith

agrees-closed : (s : ApprovalState) (t : JobState) → agrees s t ≡ true → is_open t ≡ false
unfolding agrees
agrees-closed ApprovalState.pending t e = ground arith
agrees-closed ApprovalState.approved t e = ground arith
agrees-closed ApprovalState.rejected t e = ground arith

routed-in_time :
    (now : ℕ) (org ws : Option String) (a : Approval) (j : Job)
    → agrees a.state j.state ≡ true
    → outlives_deadline now org ws j ≡ false
unfolding outlives_deadline
routed-in_time now org ws a j e = ground (arith, agrees-closed a.state j.state e)

fresh-agrees :
    (s : ApprovalState) (t : JobState)
    → is_pending s ≡ true
    → agrees ApprovalState.pending t ≡ true
    → agrees s t ≡ true
fresh-agrees ApprovalState.pending t e p = p
fresh-agrees ApprovalState.approved t e p = absurd (cc)
fresh-agrees ApprovalState.rejected t e p = absurd (cc)

agrees-asked :
    (s : ApprovalState) (t : JobState)
    → agrees s t ≡ true
    → is_cancellable t ≡ true
    → agrees s (if is_idle t then cancelled else cancel_requested) ≡ true
unfolding agrees
agrees-asked ApprovalState.pending t e c = ground arith
agrees-asked ApprovalState.approved t e c = ground arith
agrees-asked ApprovalState.rejected t e c = ground arith

Moves-IsRouted :
    (b : Bool) (k l : Job) (x y : Option Approval) → IsRouted k x → Moves b k x l y → IsRouted l y
unfolding agrees is_after
Moves-IsRouted b k l none y p (claims now c may waits) = tt
Moves-IsRouted b k l (some a) y p (claims now c may waits) =
    absurd (cc (agrees-not_waiting a.state k.state p.0))
Moves-IsRouted b k l none y p (renews now s held live) = tt
Moves-IsRouted b k l (some a) y p (renews now s held live) = absurd (ground arith)
Moves-IsRouted b k l none y p (grows now s held live) = tt
Moves-IsRouted b k l (some a) y p (grows now s held live) = absurd (ground arith)
Moves-IsRouted b k l none y p (finishes now r held live ends) = tt
Moves-IsRouted b k l (some a) y p (finishes now r held live ends) = absurd (ground arith)
Moves-IsRouted b k l none y p (proposes now r c waits held live works ends) =
    (fresh-agrees c.state (final_state r k) waits (proposed-agrees r k works ends), refl)
Moves-IsRouted b k l (some a) y p (proposes now r c waits held live works ends) =
    absurd (ground arith)
Moves-IsRouted b k l none y p (stops now held live) = tt
Moves-IsRouted b k l (some a) y p (stops now held live) = absurd (ground arith)
Moves-IsRouted b k l none y p (lapses_cancelled now org ws) = tt
Moves-IsRouted b k l (some a) y p (lapses_cancelled now org ws) =
    rw ((no_lease-lost now org ws k p.1).0) p
Moves-IsRouted b k l none y p (lapses_retried now org ws) = tt
Moves-IsRouted b k l (some a) y p (lapses_retried now org ws) =
    rw ((no_lease-lost now org ws k p.1).1) p
Moves-IsRouted b k l none y p (lapses_dead now org ws) = tt
Moves-IsRouted b k l (some a) y p (lapses_dead now org ws) =
    rw ((no_lease-lost now org ws k p.1).2) p
Moves-IsRouted b k l none y p (passes_deadline now org ws) = tt
Moves-IsRouted b k l (some a) y p (passes_deadline now org ws) =
    rw (routed-in_time now org ws a k p.0) p
Moves-IsRouted b k l none y p (asks now open_state) = tt
Moves-IsRouted b k l (some a) y p (asks now open_state) =
    (agrees-asked a.state k.state p.0 open_state, p.1)
Moves-IsRouted b k l none y p (decides now granted c found waits) = absurd (cc)
Moves-IsRouted b k l (some a) y p (decides now true c found waits) = (refl, p.1)
Moves-IsRouted b k l (some a) y p (decides now false c found waits) = (refl, p.1)
Moves-IsRouted b k l none y p (revives now dead few c found granted) = absurd (cc)
Moves-IsRouted b k l (some a) y p (revives now dead few c found granted) =
    absurd (cc (agrees-not_dead a.state k.state p.0))

-- The queue has no approval without a job, and no job that its approval disagrees with.
abbrev pub AllRouted : Queue → Type 0
AllRouted q = (id : String) → Rows IsRouted (lookup id q.jobs) (lookup id q.approvals)

pub run-AllRouted :
    (h : Hashes) (ops : List Op) (q : Queue)
    → AllFresh h ops q
    → AllRouted q
    → AllRouted (run h ops q)
run-AllRouted h ops q fresh p =
    run-Rows h IsRouted (λ k n. tt) (λ b k l x y i m. Moves-IsRouted b k l x y i m) ops q fresh p

-- A job in the dead letters that never had an approval.
abbrev IsBuried : Job → Option Approval → Type 0
IsBuried j a = (is_dead j.state ≡ true) × (a ≡ none)

dead-closed :
    (s : JobState)
    → is_dead s ≡ true
    → (is_waiting s ≡ false)
      × (is_held true s ≡ false)
      × (is_held false s ≡ false)
      × (is_cancellable s ≡ false)
unfolding is_waiting is_held
dead-closed s e = ground arith

dead-not_lost :
    (now : ℕ) (org ws : Option String) (j : Job)
    → is_dead j.state ≡ true
    → (loses_cancelled now org ws j ≡ false)
      × (loses_retried now org ws j ≡ false)
      × (loses_dead now org ws j ≡ false)
      × (outlives_deadline now org ws j ≡ false)
unfolding loses_cancelled loses_retried loses_dead outlives_deadline
dead-not_lost now org ws j e = ground arith

Moves-IsBuried :
    (b : Bool) (k l : Job) (x y : Option Approval) → IsBuried k x → Moves b k x l y → IsBuried l y
Moves-IsBuried b k l x y p (claims now c may waits) = absurd (cc (dead-closed k.state p.0).0)
Moves-IsBuried b k l x y p (renews now s held live) = absurd (cc (dead-closed k.state p.0).1)
Moves-IsBuried b k l x y p (grows now s held live) = absurd (cc (dead-closed k.state p.0).2)
Moves-IsBuried b k l x y p (finishes now r held live ends) = absurd (cc (dead-closed k.state p.0).1)
Moves-IsBuried b k l x y p (proposes now r c waits held live works ends) =
    absurd (cc (dead-closed k.state p.0).1)
Moves-IsBuried b k l x y p (stops now held live) = absurd (cc (dead-closed k.state p.0).1)
Moves-IsBuried b k l x y p (lapses_cancelled now org ws) = rw ((dead-not_lost now org ws k p.0).0) p
Moves-IsBuried b k l x y p (lapses_retried now org ws) = rw ((dead-not_lost now org ws k p.0).1) p
Moves-IsBuried b k l x y p (lapses_dead now org ws) = rw ((dead-not_lost now org ws k p.0).2) p
Moves-IsBuried b k l x y p (passes_deadline now org ws) = rw ((dead-not_lost now org ws k p.0).3) p
Moves-IsBuried b k l x y p (asks now open_state) = absurd (cc (dead-closed k.state p.0).3)
Moves-IsBuried b k l x y p (decides now granted c found waits) = absurd (cc p.1)
Moves-IsBuried b k l x y p (revives now dead few c found granted) = absurd (cc p.1)

dead-unapproved : (j : Job) (a : Option Approval) → IsRouted j a → is_dead j.state ≡ true → a ≡ none
dead-unapproved j none p e = refl
dead-unapproved j (some a) p e = absurd (cc (agrees-not_dead a.state j.state p.0))

-- Nothing ever brings a job back from the dead letters: in a queue whose approvals agree with their
-- jobs, as in the empty one, a dead job is there in the same state after any calls, the retries of
-- dead letters included, since the approval that a retry asks for is never given to a dead job.
pub dead_letters_stay :
    (h : Hashes) (ops : List Op) (q : Queue) (job_id : String) (j : Job)
    → AllFresh h ops q
    → AllRouted q
    → lookup job_id q.jobs ≡ some j
    → is_dead j.state ≡ true
    → (k : Job) × (lookup job_id (run h ops q).jobs ≡ some k) × (is_dead k.state ≡ true)
dead_letters_stay h ops q job_id j fresh routed found dead =
    let none_given =
      dead-unapproved j (lookup job_id q.approvals)
        (subst (λ o. Rows IsRouted o (lookup job_id q.approvals)) found (routed job_id)) dead in
    let l =
      run-Later h IsBuried (λ b k l x y p m. Moves-IsBuried b k l x y p m) job_id ops q fresh
        (record { new = j; kept = found; holds = (dead, none_given) }) in
    (l.new, l.kept, l.holds.0)
