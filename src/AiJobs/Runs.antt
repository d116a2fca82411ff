-- ===== src/AiJobs/Runs.antt =====
-- Runs of the queue of AI jobs: the operations as data, the tables after each, and what it does to
-- every job. A new job's identifier is a fresh `uuid4`; the body of a submission is validated when it
-- is parsed.
use codestra_middleware.Base.{
  ℕ, ◌≡◌, refl, Bool, true, false, List, [], ◌∷◌, Option, none, String, ok, err, ◌>>=◌, Dict,
  lookup, string_eq,
}
use codestra_middleware.Json.{Value}
use codestra_middleware.Raised.{Outcome}
use codestra_middleware.AiJobs.{completed, Queue}
use codestra_middleware.AiJobs.Contracts.{AiCommand, BrowserRequest, validated}
use codestra_middleware.AiJobs.Creation.{Quota, Settings, create_message_job, submit}
use codestra_middleware.AiJobs.Leases.{Worker, heartbeat, append_chunk}
use codestra_middleware.AiJobs.Admission.{Claim, claim}
use codestra_middleware.AiJobs.Endings.{Report, finish, worker_cancel}
use codestra_middleware.AiJobs.Recovery.{retry_dead_letter, recover_expired, expire_deadlines}
use codestra_middleware.AiJobs.Approvals.{AiResult, WorkerPrincipal, complete_job, cancel, decide}

-- The tenant and the workspace of a caller, where it is bound to them.
abbrev pub Scope : Type 0
Scope = Option String × Option String

-- A call, with the instant and the identifiers that it draws.
pub data Op : Type 0 where
  op_message : (now : ℕ) (job_id message_id : String) (r : BrowserRequest) → Op
  op_submit :
      (now : ℕ) (settings : Settings) (quota : Option Quota) (used_tokens : ℕ) (c : AiCommand)
      (workspace_id : String)
      → Op
  op_claim : (now : ℕ) (c : Claim) → Op
  op_heartbeat :
      (now : ℕ) (job_id worker_id : String) (token lease_seconds : ℕ) (w : Worker) (s : Scope) → Op
  op_chunk :
      (now : ℕ) (job_id worker_id : String) (token sequence : ℕ) (content : String) (limit : ℕ)
      (s : Scope)
      → Op
  op_finish :
      (now : ℕ) (job_id worker_id : String) (token : ℕ) (has_failed : Bool)
      (error_code : Option String) (retryable : Bool) (correlation_id : String)
      (details : Dict String Value) (s : Scope)
      → Op
  op_complete :
      (now : ℕ) (approval_id job_id worker_id : String) (token : ℕ) (result : Option AiResult)
      (p : WorkerPrincipal)
      → Op
  op_worker_cancel :
      (now : ℕ) (job_id worker_id : String) (token : ℕ)
      (organization_id workspace_id correlation_id : String)
      → Op
  op_retry :
      (now : ℕ) (job_id approval_id organization_id workspace_id actor correlation_id : String) → Op
  op_recover : (now : ℕ) (s : Scope) → Op
  op_expire : (now : ℕ) (s : Scope) → Op
  op_cancel : (now : ℕ) (job_id tenant_id workspace_id correlation_id : String) → Op
  op_decide :
      (now : ℕ) (job_id tenant_id workspace_id correlation_id : String) (granted : Bool) → Op

-- `_finish` leaves the completion state at its default.
abbrev pub report : Bool → Option String → Bool → String → Dict String Value → Report
report has_failed error_code retryable correlation_id details = record {
  has_failed = has_failed;
  error_code = error_code;
  retryable = retryable;
  correlation_id = correlation_id;
  completion_state = completed;
  safe_error_details = details;
}

-- The tables that a call leaves: an error rolls its transaction back.
abbrev pub after {ℓ} : {A : Type ℓ} → Outcome (A × Queue) → Queue → Queue
after (ok (a, q')) q = q'
after (err e) q = q

pub after-elim {ℓ κ} :
    {A : Type ℓ} (P : Queue → Type κ) (m : Outcome (A × Queue)) (q : Queue)
    → P q
    → ((a : A) (q' : Queue) → m ≡ ok (a, q') → P q')
    → P (after m q)
after-elim P (ok (a, q')) q p f = f a q' refl
after-elim P (err e) q p f = p

abbrev pub is_claim : Op → Bool
is_claim (op_claim now c) = true
is_claim _ = false

-- What the environment computes: sizes and hashes.
pub record Hashes : Type 0 where
  pub encoded_size : AiCommand → ℕ
  pub payload_size : AiCommand → ℕ
  pub payload_sha256 : AiCommand → String
  pub request_sha256 : BrowserRequest → String
  pub sha256 : String → String

-- A new job does not get an identifier that is in use.
abbrev pub IsFresh : Op → Queue → Type 0
IsFresh (op_message now job_id message_id r) q = lookup job_id q.jobs ≡ none
IsFresh _ q = Unit

module _ (h : Hashes) where
  -- The tables after a call.
  unfoldable pub apply : Op → Queue → Queue
  apply (op_message now job_id message_id r) q =
      after (create_message_job h.encoded_size h.request_sha256 h.sha256 now job_id message_id r q)
        q
  apply (op_submit now settings quota used_tokens c workspace_id) q =
      after
        (validated h.encoded_size c >>= λ d.
          submit h.payload_size h.payload_sha256 settings quota used_tokens now d workspace_id q)
        q
  apply (op_claim now c) q = after (claim now c q) q
  apply (op_heartbeat now job_id worker_id token lease_seconds w s) q =
      after (heartbeat now job_id worker_id token lease_seconds w s.0 s.1 q) q
  apply (op_chunk now job_id worker_id token sequence content limit s) q =
      after (append_chunk now job_id worker_id token sequence content limit s.0 s.1 q) q
  apply
        (op_finish now job_id worker_id token has_failed error_code retryable correlation_id details
          s)
        q =
      after
        (finish now job_id worker_id token
          (report has_failed error_code retryable correlation_id details) s.0 s.1 q)
        q
  apply (op_complete now approval_id job_id worker_id token result p) q =
      after (complete_job now approval_id job_id worker_id token result p q) q
  apply (op_worker_cancel now job_id worker_id token organization_id workspace_id correlation_id)
        q =
      after (worker_cancel now job_id worker_id token organization_id workspace_id correlation_id q)
        q
  apply (op_retry now job_id approval_id organization_id workspace_id actor correlation_id) q =
      after
        (retry_dead_letter now job_id approval_id organization_id workspace_id actor correlation_id
          q)
        q
  apply (op_recover now s) q = (recover_expired now s.0 s.1 q).1
  apply (op_expire now s) q = (expire_deadlines now s.0 s.1 q).1
  apply (op_cancel now job_id tenant_id workspace_id correlation_id) q =
      after (cancel now job_id tenant_id workspace_id correlation_id q) q
  apply (op_decide now job_id tenant_id workspace_id correlation_id granted) q =
      after (decide now job_id tenant_id workspace_id correlation_id granted q) q

  -- The tables after the calls, from the first to the last.
  unfoldable pub run : List Op → Queue → Queue
  run [] q = q
  run (op ∷ ops) q = run ops (apply op q)

  -- Every new job along the run has a fresh identifier.
  abbrev pub AllFresh : List Op → Queue → Type 0
  AllFresh [] q = Unit
  AllFresh (op ∷ ops) q = IsFresh op q × AllFresh ops (apply op q)
