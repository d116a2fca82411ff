-- ===== src/AiJobs/Sweeps.antt =====
-- What completions, cancellations, decisions, retries and sweeps do to the jobs and their approvals
-- (app/core/ai_orchestration.py and app/core/ai_jobs.py).
use codestra_middleware.Base.{
  ℕ, ◌<◌, ◌≡◌, refl, sym, ap, subst, ◌∙◌, Bool, true, false, not, ◌||◌, [], ◌∷◌, Option, none, some,
  String, ok, err, Dict, ◌==◌, string_eq, lookup, insert, update_all, >>=-elim, raise_if-elim,
  Bool-cases, Option-cases, inl, inr, eq-of_==, lookup-insert, if◌then◌else◌, arith,
}
use codestra_middleware.Raised.{Outcome, permission_error}
use codestra_middleware.AiJobs.{
  JobState, completed, approval_required, approved, rejected, Job, ApprovalState, Approval,
  DeadLetter, Queue,
}
use codestra_middleware.AiJobs.Leases.{assert_lease}
use codestra_middleware.AiJobs.Endings.{Report, is_dead, finish_in, finish}
use codestra_middleware.AiJobs.Recovery.{
  is_released, revived, revive_in, retry_released, retry_dead_letter, record_one, record_cancelled,
  recover_expired, expire_deadlines, lapsed_cancelled, lapsed_retried, lapsed_dead, past_deadline,
}
use codestra_middleware.AiJobs.Approvals.{
  AiResult, WorkerPrincipal, event, store_as, store_result, completion, pending_approval,
  as_conflict, completed_result_status, complete_with, complete_new, complete_job, is_cancellable,
  cancel_asked, cancel, set_decided, decide_in, decide, is_pending,
}
use codestra_middleware.AiJobs.Moves.{
  finishes, proposes, lapses_cancelled, lapses_retried, lapses_dead, passes_deadline, asks, decides,
  revives, stays, moves, Change, absent, unchanged, set-Change, set-Change_both, update-Change,
  update-Change_one,
}
use codestra_middleware.AiJobs.Effects.{Changes, same, assert_lease-found, finish-Changes}

abbrev queue_of {ℓ} : {A : Type ℓ} → Queue → Outcome (A × Queue) → Queue
queue_of q (ok y) = y.1
queue_of q (err e) = q

as_conflict-eq-ok {ℓ} : {A : Type ℓ} (m : Outcome A) {x : A} → as_conflict m ≡ ok x → m ≡ ok x
as_conflict-eq-ok (ok y) e = e
as_conflict-eq-ok (err (permission_error m)) e = absurd (cc)
as_conflict-eq-ok (err _) e = e

-- Storing a result leaves the jobs alone, and the lease with them.
stored-finish-Changes :
    (b needed : Bool) (now : ℕ) (approval_id job_id worker_id : String) (token : ℕ)
    (result : AiResult) (r : JobState → Report) (org ws : Option String) (j : Job) (q q' : Queue)
    (s : JobState)
    → ((t : JobState) → (r t).completion_state ≡ t)
    → ((t : JobState) → (r t).has_failed ≡ false)
    → finish now job_id worker_id token
        (r (store_as needed approval_id job_id j result q).0)
        org
        ws
        (store_as needed approval_id job_id j result q).1
      ≡ ok (s, q')
    → Changes b q q'
unfolding finish finish_in store_as
stored-finish-Changes b true now approval_id job_id worker_id token result r org ws j q q' s
      completes succeeds e =
    >>=-elim (assert_lease now job_id worker_id token org ws true _) _ e λ k asserted e₁.
      let (found, held, live) =
        assert_lease-found now job_id worker_id token org ws true _ k asserted in
      subst (Changes b q) (ap (queue_of q) e₁) (
        set-Change_both job_id k _ _ q.jobs q.approvals found (
          moves stays (
            proposes now (r approval_required) (pending_approval approval_id j) refl held live
              (succeeds approval_required) (completes approval_required))))
stored-finish-Changes b false now approval_id job_id worker_id token result r org ws j q q' s
      completes succeeds e =
    >>=-elim (assert_lease now job_id worker_id token org ws true _) _ e λ k asserted e₁.
      let (found, held, live) =
        assert_lease-found now job_id worker_id token org ws true _ k asserted in
      subst (Changes b q) (ap (queue_of q) e₁) (
        set-Change job_id k _ q.jobs q.approvals found
          (moves stays (finishes now (r completed) held live (completes completed))))

complete_with-Changes :
    (b : Bool) (now : ℕ) (approval_id job_id worker_id : String) (token : ℕ)
    (result : Option AiResult) (p : WorkerPrincipal) (q q' : Queue) (s : JobState)
    → complete_with now approval_id job_id worker_id token result p q ≡ ok (s, q')
    → Changes b q q'
unfolding complete_with store_result
complete_with-Changes b now approval_id job_id worker_id token none p q q' s e =
    finish-Changes b now job_id worker_id token _ (some p.tenant_id) (some p.workspace_id) q q' s
      refl (as_conflict-eq-ok _ e)
complete_with-Changes b now approval_id job_id worker_id token (some result) p q q' s e =
    raise_if-elim (not (result.job_id == job_id) || not (result.command_id == job_id)) _ _ e
      λ same_job e₁.
        >>=-elim
          (as_conflict (
            assert_lease now job_id worker_id token (some p.tenant_id) (some p.workspace_id) false
              q))
          _ e₁
          λ j asserted e₂.
            stored-finish-Changes b j.approval_needed now approval_id job_id worker_id token result
              (completion p) (some p.tenant_id) (some p.workspace_id) j q q' s (λ t. refl)
              (λ t. refl) (as_conflict-eq-ok _ e₂)

complete_new-Changes :
    (b : Bool) (now : ℕ) (approval_id job_id worker_id : String) (token : ℕ)
    (result : Option AiResult) (p : WorkerPrincipal) (q q' : Queue) (known : Option JobState)
    (x : JobState × Bool)
    → complete_new now approval_id job_id worker_id token result p q known ≡ ok (x, q')
    → Changes b q q'
unfolding complete_new
complete_new-Changes b now approval_id job_id worker_id token result p q q' (some state) x e =
    subst (Changes b q) (ap (queue_of q) e) (same b q)
complete_new-Changes b now approval_id job_id worker_id token result p q q' none x e =
    >>=-elim (complete_with now approval_id job_id worker_id token result p q) _ e λ done ends e₁.
      subst (Changes b q) (ap (queue_of q) e₁) (
        complete_with-Changes b now approval_id job_id worker_id token result p q done.1 done.0
          ends)

pub complete_job-Changes :
    (b : Bool) (now : ℕ) (approval_id job_id worker_id : String) (token : ℕ)
    (result : Option AiResult) (p : WorkerPrincipal) (q q' : Queue) (x : JobState × Bool)
    → complete_job now approval_id job_id worker_id token result p q ≡ ok (x, q')
    → Changes b q q'
unfolding complete_job
complete_job-Changes b now approval_id job_id worker_id token result p q q' x e =
    raise_if-elim (not (worker_id == p.worker_id)) _ _ e λ own e₁.
      >>=-elim (as_conflict (completed_result_status job_id p.tenant_id p.workspace_id result q)) _
        e₁
        λ known checked e₂.
          complete_new-Changes b now approval_id job_id worker_id token result p q q' known x e₂

pub cancel-asked :
    (now : ℕ) (job_id tenant_id ws correlation_id : String) (q q' : Queue) (s : JobState)
    → cancel now job_id tenant_id ws correlation_id q ≡ ok (s, q')
    → (j : Job) × (lookup job_id q.jobs ≡ some j)
      × (is_cancellable j.state ≡ true)
      × (event job_id "command.cancellation_requested"
            (cancel_asked now j).state
            correlation_id
            (record q { jobs = insert job_id (cancel_asked now j) q.jobs })
          ≡ q')
unfolding cancel
cancel-asked now job_id tenant_id ws correlation_id q q' s e =
    elim (Option-cases (lookup job_id q.jobs)) [
      | inl missing ↦ absurd (ground arith)
      | inr (j, found) ↦ (j, found, ground arith, ground arith)
    ]

pub cancel-Changes :
    (b : Bool) (now : ℕ) (job_id tenant_id ws correlation_id : String) (q q' : Queue) (s : JobState)
    → cancel now job_id tenant_id ws correlation_id q ≡ ok (s, q')
    → Changes b q q'
unfolding event
cancel-Changes b now job_id tenant_id ws correlation_id q q' s e =
    let (j, found, open_state, left) =
      cancel-asked now job_id tenant_id ws correlation_id q q' s e in
    subst (Changes b q) left
      (set-Change job_id j _ q.jobs q.approvals found (moves stays (asks now open_state)))

-- Without a job under the identifier, only the approval changes.
orphan-Change :
    (b : Bool) (job_id : String) (x y : Approval) (jobs : Dict String Job)
    (approvals : Dict String Approval)
    → lookup job_id jobs ≡ none
    → lookup job_id approvals ≡ some x
    → (id : String)
    → Change b
        (lookup id jobs)
        (lookup id approvals)
        (lookup id jobs)
        (lookup id (insert job_id y approvals))
orphan-Change b job_id x y jobs approvals missing found id = elim (Bool-cases (job_id == id)) [
  | inl same_id ↦
      let is_id = eq-of_== job_id id same_id in
      let gone : lookup id jobs ≡ none = subst (λ z. lookup z jobs ≡ none) is_id missing in
      let there : lookup id approvals ≡ some x =
        subst (λ z. lookup z approvals ≡ some x) is_id found in
      rw (lookup-insert, same_id, gone) (absent {a = lookup id approvals} λ none_there. absurd (cc))
  | inr other ↦ rw (lookup-insert, other) (unchanged (lookup id jobs) (lookup id approvals))
]

set_decided-Changes :
    (b : Bool) (now : ℕ) (job_id : String) (granted : Bool) (x : Approval) (q : Queue)
    (known : Option Job)
    → lookup job_id q.jobs ≡ known
    → lookup job_id q.approvals ≡ some x
    → is_pending x.state ≡ true
    → Changes b q (
        set_decided now job_id
          (if granted then approved else rejected)
          (record q {
            approvals =
                insert job_id
                  (record x {
                    state = if granted then ApprovalState.approved else ApprovalState.rejected;
                    decided_at = some now;
                  })
                  q.approvals;
          })
          known)
unfolding set_decided
set_decided-Changes b now job_id granted x q none missing found waits =
    orphan-Change b job_id x _ q.jobs q.approvals missing found
set_decided-Changes b now job_id granted x q (some j) known found waits =
    set-Change_both job_id j _ _ q.jobs q.approvals known
      (moves stays (decides now granted x found waits))

decide-found :
    (now : ℕ) (job_id tenant_id ws correlation_id : String) (granted : Bool) (q q' : Queue)
    (s : JobState)
    → decide now job_id tenant_id ws correlation_id granted q ≡ ok (s, q')
    → (x : Approval) × (lookup job_id q.approvals ≡ some x)
      × (is_pending x.state ≡ true)
      × (decide_in now job_id granted correlation_id x q ≡ ok (s, q'))
unfolding decide
decide-found now job_id tenant_id ws correlation_id granted q q' s e =
    elim (Option-cases (lookup job_id q.approvals)) [
      | inl missing ↦ absurd (ground arith)
      | inr (x, found) ↦ (x, found, ground arith, ground arith)
    ]

pub decide-Changes :
    (b : Bool) (now : ℕ) (job_id tenant_id ws correlation_id : String) (granted : Bool)
    (q q' : Queue) (s : JobState)
    → decide now job_id tenant_id ws correlation_id granted q ≡ ok (s, q')
    → Changes b q q'
unfolding decide_in event
decide-Changes b now job_id tenant_id ws correlation_id granted q q' s e =
    let (x, found, waits, left) =
      decide-found now job_id tenant_id ws correlation_id granted q q' s e in
    subst (Changes b q) (ap (queue_of q) left)
      (set_decided-Changes b now job_id granted x q (lookup job_id q.jobs) refl found waits)

-- A queue that is known by its jobs and its approvals.
rows-Changes :
    (b : Bool) (q q' : Queue) (jobs : Dict String Job)
    → q'.jobs ≡ jobs
    → q'.approvals ≡ q.approvals
    → ((id : String)
        → Change b
            (lookup id q.jobs)
            (lookup id q.approvals)
            (lookup id jobs)
            (lookup id q.approvals))
    → Changes b q q'
rows-Changes b q q' jobs e f c id =
    subst
      (λ x. Change b (lookup id q.jobs) (lookup id q.approvals) (lookup id q'.jobs) (lookup id x))
      (sym f)
      (subst
        (λ x.
          Change b (lookup id q.jobs) (lookup id q.approvals) (lookup id x) (lookup id q.approvals))
        (sym e) (c id))

revive-found :
    (now : ℕ) (job_id approval_id org ws actor correlation_id : String) (q q' : Queue)
    (s : JobState) (letter : Option DeadLetter) (known : Option Approval)
    → retry_released now job_id approval_id org ws actor correlation_id q letter known ≡ ok (s, q')
    → (d : DeadLetter) × (x : Approval) × (known ≡ some x)
      × (x.state ≡ ApprovalState.approved)
      × (revive_in now job_id actor correlation_id d q ≡ ok (s, q'))
unfolding retry_released is_released
revive-found now job_id approval_id org ws actor correlation_id q q' s (some d) (some x) e =
    (d, x, refl, ground arith, ground arith)
revive-found now job_id approval_id org ws actor correlation_id q q' s none known e = absurd (cc)
revive-found now job_id approval_id org ws actor correlation_id q q' s (some d) none e = absurd (cc)

revive_in-found :
    (now : ℕ) (job_id actor correlation_id : String) (d : DeadLetter) (q q' : Queue) (s : JobState)
    → revive_in now job_id actor correlation_id d q ≡ ok (s, q')
    → (j : Job) × (lookup job_id q.jobs ≡ some j)
      × (is_dead j.state ≡ true)
      × (j.max_attempts < 10)
      × (q'.jobs ≡ insert job_id (revived now j) q.jobs)
      × (q'.approvals ≡ q.approvals)
unfolding revive_in
revive_in-found now job_id actor correlation_id d q q' s e =
    elim (Option-cases (lookup job_id q.jobs)) [
      | inl missing ↦ absurd (ground arith)
      | inr (j, found) ↦ (j, found, ground arith, ground arith, ground arith, ground arith)
    ]

pub retry_dead_letter-Changes :
    (b : Bool) (now : ℕ) (job_id approval_id org ws actor correlation_id : String) (q q' : Queue)
    (s : JobState)
    → retry_dead_letter now job_id approval_id org ws actor correlation_id q ≡ ok (s, q')
    → Changes b q q'
unfolding retry_dead_letter
retry_dead_letter-Changes b now job_id approval_id org ws actor correlation_id q q' s e =
    let (d, x, known, granted, revived_by) =
      revive-found now job_id approval_id org ws actor correlation_id q q' s
        (lookup job_id q.dead_letters) (lookup job_id q.approvals) e in
    let (j, found, dead, few, jobs, approvals) =
      revive_in-found now job_id actor correlation_id d q q' s revived_by in
    rows-Changes b q q' _ jobs approvals (
      set-Change job_id j _ q.jobs q.approvals found
        (moves stays (revives now dead few x known granted)))

record_one-keeps :
    (now : ℕ) (org ws : Option String) (id : String) (j : Job) (q : Queue)
    → ((record_one now org ws id j q).jobs ≡ q.jobs)
      × ((record_one now org ws id j q).approvals ≡ q.approvals)
unfolding record_one
record_one-keeps now org ws id j q = ground arith

record_cancelled-keeps :
    (now : ℕ) (org ws : Option String) (rows : Dict String Job) (q : Queue)
    → ((record_cancelled now org ws rows q).jobs ≡ q.jobs)
      × ((record_cancelled now org ws rows q).approvals ≡ q.approvals)
unfolding record_cancelled
record_cancelled-keeps now org ws [] q = (refl, refl)
record_cancelled-keeps now org ws ((id, j) ∷ rows) q =
    let (jobs, approvals) = record_one-keeps now org ws id j q in
    let (jobs', approvals') =
      record_cancelled-keeps now org ws rows (record_one now org ws id j q) in
    (jobs' ∙ jobs, approvals' ∙ approvals)

pub recover_expired-Changes :
    (b : Bool) (now : ℕ) (org ws : Option String) (q : Queue)
    → Changes b q (recover_expired now org ws q).1
unfolding recover_expired
recover_expired-Changes b now org ws q =
    let (jobs, approvals) =
      record_cancelled-keeps now org ws q.jobs
        (record q { jobs = update_all (lapsed_cancelled now org ws) q.jobs }) in
    rows-Changes b q (recover_expired now org ws q).1 _
      (ap (λ x. update_all (lapsed_dead now org ws) (update_all (lapsed_retried now org ws) x))
        jobs)
      approvals
      (update-Change (lapsed_cancelled now org ws) (lapsed_retried now org ws)
        (lapsed_dead now org ws) q.jobs q.approvals
        (λ j a.
          moves (moves (moves stays (lapses_cancelled now org ws)) (lapses_retried now org ws))
            (lapses_dead now org ws)))

pub expire_deadlines-Changes :
    (b : Bool) (now : ℕ) (org ws : Option String) (q : Queue)
    → Changes b q (expire_deadlines now org ws q).1
unfolding expire_deadlines
expire_deadlines-Changes b now org ws q =
    update-Change_one (past_deadline now org ws) q.jobs q.approvals
      (λ j a. moves stays (passes_deadline now org ws))
