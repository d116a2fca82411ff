-- ===== src/AiJobs/Reopened.antt =====
-- A decision on the result of a job that has been cancelled (cancel and decide of
-- app/core/ai_orchestration.py).
use codestra_middleware.Base.{
  ℕ, ◌≡◌, refl, sym, ap, ◌∙◌, Bool, true, some, String, ok, lookup, lookup-insert_self, string_eq,
  ◌==◌, ==_iff, arith, if◌then◌else◌,
}
use codestra_middleware.AiJobs.{
  JobState, cancelled, cancel_requested, approval_required, approved, rejected, Job, ApprovalState,
  Approval, Queue,
}
use codestra_middleware.AiJobs.Approvals.{
  event, cancel, cancel_asked, decide, decide_in, decided, set_decided, is_pending, is_idle,
}
use codestra_middleware.AiJobs.Sweeps.{cancel-asked}

decide-accepts :
    (now : ℕ) (job_id tenant_id ws correlation_id : String) (granted : Bool) (q : Queue)
    (a : Approval)
    → lookup job_id q.approvals ≡ some a
    → a.organization_id ≡ tenant_id
    → a.workspace_id ≡ ws
    → a.state ≡ ApprovalState.pending
    → decide now job_id tenant_id ws correlation_id granted q
      ≡ decide_in now job_id granted correlation_id a q
unfolding decide
decide-accepts now job_id tenant_id ws correlation_id granted q a approval org in_ws pending =
    let org_eq : (a.organization_id == tenant_id) ≡ true =
      (==_iff a.organization_id tenant_id).1 org in
    let ws_eq : (a.workspace_id == ws) ≡ true = (==_iff a.workspace_id ws).1 in_ws in
    ground (arith, org_eq, ws_eq, ap is_pending pending)

-- A decision that finds a pending approval of the tenant sets the state of the job, whatever it was.
decide_in-sets :
    (now : ℕ) (job_id correlation_id : String) (granted : Bool) (a : Approval) (q : Queue) (j : Job)
    → lookup job_id q.jobs ≡ some j
    → (q' : Queue) × (decide_in now job_id granted correlation_id a q
        ≡ ok (if granted then approved else rejected, q'))
      × (lookup job_id q'.jobs ≡ some (decided now (if granted then approved else rejected) j))
unfolding decide_in event set_decided
decide_in-sets now job_id correlation_id granted a q j found =
    (_, refl, rw found (lookup-insert_self job_id _ q.jobs))

-- The cancellation of a job whose result waits for its approval leaves the approval open: the job is
-- cancelled, and a decision of the same tenant and workspace is still accepted after it and takes the
-- cancelled job to approved or rejected.
pub cancelled_is_decided :
    (now later : ℕ) (job_id tenant_id ws correlation_id correlation_id' : String) (granted : Bool)
    (q q' : Queue) (s : JobState) (j : Job) (a : Approval)
    → lookup job_id q.jobs ≡ some j
    → j.state ≡ approval_required
    → lookup job_id q.approvals ≡ some a
    → a.organization_id ≡ tenant_id
    → a.workspace_id ≡ ws
    → a.state ≡ ApprovalState.pending
    → cancel now job_id tenant_id ws correlation_id q ≡ ok (s, q')
    → (k : Job) × (lookup job_id q'.jobs ≡ some k)
      × (k.state ≡ cancelled)
      × ((q'' : Queue) × (l : Job) × (decide later job_id tenant_id ws correlation_id' granted q'
            ≡ ok (if granted then approved else rejected, q''))
          × (lookup job_id q''.jobs ≡ some l)
          × (l.state ≡ (if granted then approved else rejected)))
unfolding event
cancelled_is_decided now later job_id tenant_id ws correlation_id correlation_id' granted q q' s j a
      found waits approval org in_ws pending e =
    let (x, found_x, _, left) = cancel-asked now job_id tenant_id ws correlation_id q q' s e in
    let same : x ≡ j = cc in
    let kept : lookup job_id q'.jobs ≡ some (cancel_asked now x) =
      ap (λ y. lookup job_id y.jobs) (sym left) ∙ lookup-insert_self job_id _ q.jobs in
    let still : lookup job_id q'.approvals ≡ some a =
      ap (λ y. lookup job_id y.approvals) (sym left) ∙ approval in
    let (q'', done, new) =
      decide_in-sets later job_id correlation_id' granted a q' (cancel_asked now x) kept in
    (
      cancel_asked now x,
      kept,
      ap (λ y. if is_idle y then cancelled else cancel_requested) (ap (λ y. y.state) same ∙ waits),
      (
        q'',
        decided later (if granted then approved else rejected) (cancel_asked now x),
        decide-accepts later job_id tenant_id ws correlation_id' granted q' a still org in_ws
              pending
            ∙ done,
        new,
        refl,
      ),
    )
