-- ===== src/AiJobs/Histories.antt =====
-- What any sequence of calls of the queue of AI jobs makes of a job, and what it keeps.
use codestra_middleware.Base.{
  ◌≡◌, refl, sym, subst, Bool, true, false, List, [], ◌∷◌, Option, none, some, String, lookup,
  string_eq,
}
use codestra_middleware.AiJobs.{Job, Approval, Queue}
use codestra_middleware.AiJobs.Moves.{Moves, Walks-keeps, IsNew, Change, absent, appears, walks}
use codestra_middleware.AiJobs.Effects.{
  Changes, same, heartbeat-Changes, append_chunk-Changes, finish-Changes, worker_cancel-Changes,
}
use codestra_middleware.AiJobs.Sweeps.{
  complete_job-Changes, cancel-Changes, decide-Changes, retry_dead_letter-Changes,
  recover_expired-Changes, expire_deadlines-Changes,
}
use codestra_middleware.AiJobs.Arrivals.{claim-Changes, create_message_job-Changes, submit-Changes}
use codestra_middleware.AiJobs.Runs.{
  Op, op_message, op_submit, op_claim, op_heartbeat, op_chunk, op_finish, op_complete,
  op_worker_cancel, op_retry, op_recover, op_expire, op_cancel, op_decide, report, after-elim,
  is_claim, Hashes, IsFresh, apply, run, AllFresh,
}

-- A property of jobs and approvals that holds of every row.
abbrev pub Everywhere {ℓ} : (Job → Option Approval → Type ℓ) → Queue → Type ℓ
Everywhere P q = (id : String) (j : Job) → lookup id q.jobs ≡ some j → P j (lookup id q.approvals)

module _ (h : Hashes) where
  pub apply-Changes : (op : Op) (q : Queue) → IsFresh op q → Changes (is_claim op) q (apply h op q)
  unfolding apply
  apply-Changes (op_message now job_id message_id r) q fresh =
      after-elim (Changes false q) _ q (same false q) λ x q' e.
        create_message_job-Changes false h.encoded_size h.request_sha256 h.sha256 now job_id
          message_id r q q' x fresh e
  apply-Changes (op_submit now settings quota used_tokens c ws) q fresh =
      after-elim (Changes false q) _ q (same false q) λ x q' e.
        submit-Changes false h.encoded_size h.payload_size h.payload_sha256 settings quota
          used_tokens now ws c q q' x e
  apply-Changes (op_claim now c) q fresh =
      after-elim (Changes true q) _ q (same true q) λ x q' e. claim-Changes now c q q' x e
  apply-Changes (op_heartbeat now job_id worker_id token lease_seconds w s) q fresh =
      after-elim (Changes false q) _ q (same false q) λ t q' e.
        heartbeat-Changes false now job_id worker_id token lease_seconds w s.0 s.1 q q' t e
  apply-Changes (op_chunk now job_id worker_id token sequence content limit s) q fresh =
      after-elim (Changes false q) _ q (same false q) λ x q' e.
        append_chunk-Changes false now job_id worker_id token sequence content limit s.0 s.1 q q' x
          e
  apply-Changes (op_finish now job_id worker_id token has_failed error retryable corr details s) q
        fresh =
      after-elim (Changes false q) _ q (same false q) λ x q' e.
        finish-Changes false now job_id worker_id token
          (report has_failed error retryable corr details) s.0 s.1 q q' x refl e
  apply-Changes (op_complete now approval_id job_id worker_id token result p) q fresh =
      after-elim (Changes false q) _ q (same false q) λ x q' e.
        complete_job-Changes false now approval_id job_id worker_id token result p q q' x e
  apply-Changes (op_worker_cancel now job_id worker_id token org ws corr) q fresh =
      after-elim (Changes false q) _ q (same false q)
        λ x q' e. worker_cancel-Changes false now job_id worker_id token org ws corr q q' x e
  apply-Changes (op_retry now job_id approval_id org ws actor corr) q fresh =
      after-elim (Changes false q) _ q (same false q)
        λ x q' e. retry_dead_letter-Changes false now job_id approval_id org ws actor corr q q' x e
  apply-Changes (op_recover now s) q fresh = recover_expired-Changes false now s.0 s.1 q
  apply-Changes (op_expire now s) q fresh = expire_deadlines-Changes false now s.0 s.1 q
  apply-Changes (op_cancel now job_id tenant_id ws corr) q fresh =
      after-elim (Changes false q) _ q (same false q)
        λ x q' e. cancel-Changes false now job_id tenant_id ws corr q q' x e
  apply-Changes (op_decide now job_id tenant_id ws corr granted) q fresh =
      after-elim (Changes false q) _ q (same false q)
        λ x q' e. decide-Changes false now job_id tenant_id ws corr granted q q' x e

-- What holds of new jobs and is kept by every move holds of every job.
Change-keeps {ℓ} :
    (P : Job → Option Approval → Type ℓ) {b : Bool}
    → ((k : Job) (a : Option Approval) → IsNew k → P k a)
    → ((k l : Job) (x y : Option Approval) → P k x → Moves b k x l y → P l y)
    → (o : Option Job) (a : Option Approval) (o' : Option Job) (a' : Option Approval)
    → ((j : Job) → o ≡ some j → P j a)
    → Change b o a o' a'
    → (j : Job) → o' ≡ some j
    → P j a'
Change-keeps P new keeps o a o' a' p (absent f) j e = absurd (cc)
Change-keeps P new keeps o a o' a' p (appears {j = k} n) j e = subst (λ x. P x a) (cc) (new k a n)
Change-keeps P new keeps o a o' a' p (walks {j = k} {k = l} w) j e =
    subst (λ x. P x a') (cc) (Walks-keeps P keeps (p k refl) w)

module _ {ℓ} (h : Hashes) (P : Job → Option Approval → Type ℓ)
    (new : (k : Job) (a : Option Approval) → IsNew k → P k a)
    (keeps : (b : Bool) (k l : Job) (x y : Option Approval) → P k x → Moves b k x l y → P l y) where
  apply-Everywhere :
      (op : Op) (q : Queue) → IsFresh op q → Everywhere P q → Everywhere P (apply h op q)
  apply-Everywhere op q fresh p id j e =
      Change-keeps P new (keeps (is_claim op)) (lookup id q.jobs) (lookup id q.approvals)
        (lookup id (apply h op q).jobs) (lookup id (apply h op q).approvals) (p id)
        (apply-Changes h op q fresh id) j e

  pub run-Everywhere :
      (ops : List Op) (q : Queue) → AllFresh h ops q → Everywhere P q → Everywhere P (run h ops q)
  unfolding run
  run-Everywhere [] q fresh p = p
  run-Everywhere (op ∷ ops) q fresh p =
      run-Everywhere ops (apply h op q) fresh.1 (apply-Everywhere op q fresh.0 p)

-- The job that is there, later: it is never lost.
pub record Later {ℓ} (P : Job → Option Approval → Type ℓ) (id : String) (q : Queue) : Type ℓ where
  pub new : Job
  pub kept : lookup id q.jobs ≡ some new
  pub holds : P new (lookup id q.approvals)

pub Change-Later {ℓ} :
    (P : Job → Option Approval → Type ℓ) {b : Bool}
    → ((k l : Job) (x y : Option Approval) → P k x → Moves b k x l y → P l y)
    → (id : String) (j : Job) (q q' : Queue) (o o' : Option Job) (a a' : Option Approval)
    → lookup id q'.jobs ≡ o'
    → lookup id q'.approvals ≡ a'
    → o ≡ some j
    → P j a
    → Change b o a o' a'
    → Later P id q'
Change-Later P keeps id j q q' o o' a a' e f known p (absent g) = absurd (cc)
Change-Later P keeps id j q q' o o' a a' e f known p (appears n) = absurd (cc)
Change-Later P keeps id j q q' o o' a a' e f known p (walks {j = k} {k = l} w) = record {
  new = l;
  kept = e;
  holds = subst (P l) (sym f) (Walks-keeps P keeps (subst (λ x. P x a) (cc) p) w);
}

module _ {ℓ} (h : Hashes) (P : Job → Option Approval → Type ℓ)
    (keeps : (b : Bool) (k l : Job) (x y : Option Approval) → P k x → Moves b k x l y → P l y) where
  -- What holds of one job and is kept by every move holds of it after any calls.
  pub run-Later :
      (id : String) (ops : List Op) (q : Queue)
      → AllFresh h ops q
      → Later P id q
      → Later P id (run h ops q)
  unfolding run
  run-Later id [] q fresh l = l
  run-Later id (op ∷ ops) q fresh l = run-Later id ops (apply h op q) fresh.1 (
      Change-Later P (keeps (is_claim op)) id l.new q (apply h op q) (lookup id q.jobs)
        (lookup id (apply h op q).jobs) (lookup id q.approvals) (lookup id (apply h op q).approvals)
        refl refl l.kept l.holds (apply-Changes h op q fresh.0 id))

-- An identifier without a job has no approval, as the foreign key says; each job has the property.
abbrev pub Rows : (Job → Option Approval → Type 0) → Option Job → Option Approval → Type 0
Rows P none a = a ≡ none
Rows P (some j) a = P j a

Change-Rows :
    (P : Job → Option Approval → Type 0) {b : Bool}
    → ((k : Job) → IsNew k → P k none)
    → ((k l : Job) (x y : Option Approval) → P k x → Moves b k x l y → P l y)
    → {o : Option Job} {a : Option Approval} {o' : Option Job} {a' : Option Approval} → Rows P o a
    → Change b o a o' a'
    → Rows P o' a'
Change-Rows P new keeps p (absent f) = f p
Change-Rows P new keeps p (appears {j = j} n) = subst (P j) (sym p) (new j n)
Change-Rows P new keeps p (walks w) = Walks-keeps P keeps p w

module _ (h : Hashes) (P : Job → Option Approval → Type 0) (new : (k : Job) → IsNew k → P k none)
    (keeps : (b : Bool) (k l : Job) (x y : Option Approval) → P k x → Moves b k x l y → P l y) where
  pub run-Rows :
      (ops : List Op) (q : Queue)
      → AllFresh h ops q
      → ((id : String) → Rows P (lookup id q.jobs) (lookup id q.approvals))
      → (id : String) → Rows P (lookup id (run h ops q).jobs) (lookup id (run h ops q).approvals)
  unfolding run
  run-Rows [] q fresh p = p
  run-Rows (op ∷ ops) q fresh p =
      run-Rows ops (apply h op q) fresh.1
        (λ id. Change-Rows P new (keeps (is_claim op)) (p id) (apply-Changes h op q fresh.0 id))
