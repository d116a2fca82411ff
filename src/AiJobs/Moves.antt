-- ===== src/AiJobs/Moves.antt =====
-- The ways in which the operations of app/core/ai_jobs.py and app/core/ai_orchestration.py change one
-- job and its approval.
use mathlib.Core.Option
use codestra_middleware.Base.{
  ℕ, ◌<◌, ◌≡◌, sym, subst, Bool, true, false, Option, none, some, String, Dict, string_eq, ◌==◌,
  lookup, insert, update_all, lookup-insert, lookup-update_all, eq-of_==, Bool-cases, inl, inr,
  if◌then◌else◌,
}
use codestra_middleware.AiJobs.{
  completed, approval_required, approved, rejected, Job, ApprovalState, Approval, is_after,
}
use codestra_middleware.AiJobs.Contracts.{AiCommand}
use codestra_middleware.AiJobs.Creation.{fresh_job}
use codestra_middleware.AiJobs.Leases.{is_held, renewed, grown}
use codestra_middleware.AiJobs.Admission.{Claim, is_waiting, claimed}
use codestra_middleware.AiJobs.Endings.{Report, final_state, is_dead, finished, stopped}
use codestra_middleware.AiJobs.Recovery.{
  revived, lapsed_cancelled, lapsed_retried, lapsed_dead, past_deadline,
}
use codestra_middleware.AiJobs.Approvals.{
  is_cancellable, cancel_asked, decided, is_pending, keep_or,
}

-- `may_claim` tells whether a claim is among the moves.
pub data Moves (may_claim : Bool) (j : Job) (a : Option Approval)
    : Job → Option Approval → Type 0 where
  claims :
      (now : ℕ) (c : Claim)
      → may_claim ≡ true
      → is_waiting j.state ≡ true
      → Moves may_claim j a (claimed now c j) a
  renews :
      (now lease_seconds : ℕ)
      → is_held true j.state ≡ true
      → is_after j.lease_expires_at now ≡ true
      → Moves may_claim j a (renewed now lease_seconds j) a
  grows :
      (now size : ℕ)
      → is_held false j.state ≡ true
      → is_after j.lease_expires_at now ≡ true
      → Moves may_claim j a (grown now size j) a
  finishes :
      (now : ℕ) (r : Report)
      → is_held true j.state ≡ true
      → is_after j.lease_expires_at now ≡ true
      → r.completion_state ≡ completed
      → Moves may_claim j a (finished now r (final_state r j) j) a
  proposes :
      (now : ℕ) (r : Report) (b : Approval)
      → is_pending b.state ≡ true
      → is_held true j.state ≡ true
      → is_after j.lease_expires_at now ≡ true
      → r.has_failed ≡ false
      → r.completion_state ≡ approval_required
      → Moves may_claim j a (finished now r (final_state r j) j) (some (keep_or b a))
  stops :
      (now : ℕ)
      → is_held true j.state ≡ true
      → is_after j.lease_expires_at now ≡ true
      → Moves may_claim j a (stopped now j) a
  lapses_cancelled :
      (now : ℕ) (org ws : Option String) → Moves may_claim j a (lapsed_cancelled now org ws j) a
  lapses_retried :
      (now : ℕ) (org ws : Option String) → Moves may_claim j a (lapsed_retried now org ws j) a
  lapses_dead :
      (now : ℕ) (org ws : Option String) → Moves may_claim j a (lapsed_dead now org ws j) a
  passes_deadline :
      (now : ℕ) (org ws : Option String) → Moves may_claim j a (past_deadline now org ws j) a
  asks : (now : ℕ) → is_cancellable j.state ≡ true → Moves may_claim j a (cancel_asked now j) a
  decides :
      (now : ℕ) (granted : Bool) (b : Approval)
      → a ≡ some b
      → is_pending b.state ≡ true
      → Moves may_claim j a (decided now (if granted then approved else rejected) j) (
          some (record b {
            state = if granted then ApprovalState.approved else ApprovalState.rejected;
            decided_at = some now;
          }))
  revives :
      (now : ℕ)
      → is_dead j.state ≡ true
      → j.max_attempts < 10
      → (b : Approval) → a ≡ some b
      → b.state ≡ ApprovalState.approved
      → Moves may_claim j a (revived now j) a

-- Any number of moves, one after another.
pub data Walks (may_claim : Bool) (j : Job) (a : Option Approval)
    : Job → Option Approval → Type 0 where
  stays : Walks may_claim j a j a
  moves :
      {k l : Job} {b c : Option Approval}
      → Walks may_claim j a k b
      → Moves may_claim k b l c
      → Walks may_claim j a l c

-- What every move keeps holds after a walk.
pub Walks-keeps {ℓ} :
    (P : Job → Option Approval → Type ℓ) {may_claim : Bool}
    → ((k l : Job) (b c : Option Approval) → P k b → Moves may_claim k b l c → P l c)
    → {j : Job} {a : Option Approval} {l : Job} {c : Option Approval} → P j a
    → Walks may_claim j a l c
    → P l c
Walks-keeps P keeps p stays = p
Walks-keeps P keeps p (moves {k = k} {l = l} {b = b} {c = c} w m) =
    keeps k l b c (Walks-keeps P keeps p w) m

-- A job that has been added, with attempts that its table allows.
pub record IsNew (j : Job) : Type 0 where
  pub now : ℕ
  pub workspace_id : String
  pub message_id : Option String
  pub hash : String
  pub max_attempts : ℕ
  pub command : AiCommand
  pub is_fresh : j ≡ fresh_job now workspace_id message_id hash max_attempts command
  pub positive : 0 < max_attempts
  pub few : max_attempts < 7

-- What an operation does at one identifier: nothing where no job is, a new job, or a walk.
pub data Change (may_claim : Bool)
    : Option Job → Option Approval → Option Job → Option Approval → Type 0 where
  absent : {a b : Option Approval} → (a ≡ none → b ≡ none) → Change may_claim none a none b
  appears : {j : Job} {a : Option Approval} → IsNew j → Change may_claim none a (some j) a
  walks :
      {j k : Job} {a b : Option Approval}
      → Walks may_claim j a k b
      → Change may_claim (some j) a (some k) b

pub unchanged : {may_claim : Bool} (o : Option Job) (a : Option Approval) → Change may_claim o a o a
unchanged none a = absent (λ e. e)
unchanged (some j) a = walks stays

-- One row changes.
pub set-Change :
    {may_claim : Bool} (job_id : String) (j k : Job) (jobs : Dict String Job)
    (approvals : Dict String Approval)
    → lookup job_id jobs ≡ some j
    → Walks may_claim j (lookup job_id approvals) k (lookup job_id approvals)
    → (id : String)
    → Change may_claim
        (lookup id jobs)
        (lookup id approvals)
        (lookup id (insert job_id k jobs))
        (lookup id approvals)
set-Change {may_claim} job_id j k jobs approvals e w id = elim (Bool-cases (job_id == id)) [
  | inl same ↦
      let is_id = eq-of_== job_id id same in
      rw (lookup-insert, same)
        (subst
          (λ x. Change may_claim (lookup x jobs) (lookup x approvals) (some k) (lookup x approvals))
          is_id
          (subst
            (λ o. Change may_claim o (lookup job_id approvals) (some k) (lookup job_id approvals))
            (sym e) (walks w)))
  | inr other ↦ rw (lookup-insert, other) (unchanged (lookup id jobs) (lookup id approvals))
]

-- One row changes with its approval.
pub set-Change_both :
    {may_claim : Bool} (job_id : String) (j k : Job) (b : Approval) (jobs : Dict String Job)
    (approvals : Dict String Approval)
    → lookup job_id jobs ≡ some j
    → Walks may_claim j (lookup job_id approvals) k (some b)
    → (id : String)
    → Change may_claim
        (lookup id jobs)
        (lookup id approvals)
        (lookup id (insert job_id k jobs))
        (lookup id (insert job_id b approvals))
set-Change_both {may_claim} job_id j k b jobs approvals e w id = elim (Bool-cases (job_id == id)) [
  | inl same ↦
      let is_id = eq-of_== job_id id same in
      rw (lookup-insert, lookup-insert, same)
        (subst (λ x. Change may_claim (lookup x jobs) (lookup x approvals) (some k) (some b)) is_id
          (subst (λ o. Change may_claim o (lookup job_id approvals) (some k) (some b)) (sym e)
            (walks w)))
  | inr other ↦
      rw (lookup-insert, lookup-insert, other) (unchanged (lookup id jobs) (lookup id approvals))
]

-- A row is added where none is.
pub add-Change :
    {may_claim : Bool} (job_id : String) (k : Job) (jobs : Dict String Job)
    (approvals : Dict String Approval)
    → lookup job_id jobs ≡ none
    → IsNew k
    → (id : String)
    → Change may_claim
        (lookup id jobs)
        (lookup id approvals)
        (lookup id (insert job_id k jobs))
        (lookup id approvals)
add-Change {may_claim} job_id k jobs approvals e n id = elim (Bool-cases (job_id == id)) [
  | inl same ↦
      let is_id = eq-of_== job_id id same in
      rw (lookup-insert, same)
        (subst
          (λ x. Change may_claim (lookup x jobs) (lookup x approvals) (some k) (lookup x approvals))
          is_id
          (subst
            (λ o. Change may_claim o (lookup job_id approvals) (some k) (lookup job_id approvals))
            (sym e) (appears n)))
  | inr other ↦ rw (lookup-insert, other) (unchanged (lookup id jobs) (lookup id approvals))
]

-- All rows change alike, three times.
map-Change :
    {may_claim : Bool} (f g h : Job → Job) (a : Option Approval)
    → ((j : Job) → Walks may_claim j a (h (g (f j))) a)
    → (o : Option Job) → Change may_claim o a (Option.map h (Option.map g (Option.map f o))) a
map-Change f g h a w none = absent (λ e. e)
map-Change f g h a w (some j) = walks (w j)

pub update-Change :
    {may_claim : Bool} (f g h : Job → Job) (jobs : Dict String Job)
    (approvals : Dict String Approval)
    → ((j : Job) (a : Option Approval) → Walks may_claim j a (h (g (f j))) a)
    → (id : String)
    → Change may_claim
        (lookup id jobs)
        (lookup id approvals)
        (lookup id (update_all h (update_all g (update_all f jobs))))
        (lookup id approvals)
update-Change f g h jobs approvals w id =
    rw
      (
        lookup-update_all h id (update_all g (update_all f jobs)),
        lookup-update_all g id (update_all f jobs),
        lookup-update_all f id jobs,
      )
      (map-Change f g h (lookup id approvals) (λ j. w j (lookup id approvals)) (lookup id jobs))

pub update-Change_one :
    {may_claim : Bool} (f : Job → Job) (jobs : Dict String Job) (approvals : Dict String Approval)
    → ((j : Job) (a : Option Approval) → Walks may_claim j a (f j) a)
    → (id : String)
    → Change may_claim
        (lookup id jobs)
        (lookup id approvals)
        (lookup id (update_all f jobs))
        (lookup id approvals)
update-Change_one {may_claim} f jobs approvals w id =
    rw (lookup-update_all f id jobs)
      (elim (lookup id jobs)
        as (λ o. Change may_claim o (lookup id approvals) (Option.map f o) (lookup id approvals)) [
          | none ↦ absent (λ e. e)
          | some j ↦ walks (w j (lookup id approvals))
        ])
