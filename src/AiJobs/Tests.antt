-- ===== src/AiJobs/Tests.antt =====
-- Runs of the queue of AI jobs on concrete tables, and the theorems at them.
use codestra_middleware.Base.{
  ◌+◌, ◌≤◌, ◌≡◌, refl, subst, true, false, List, [], ◌∷◌, Option, none, some, String, ok, err,
  lookup, insert, string_eq, nat_eq, pair_eq, ◌==◌, Bool-cases, eq-of_==, inl, inr, arith, All,
  Dict,
}
use codestra_middleware.Clock.{seconds, hours}
use codestra_middleware.Raised.{Outcome}
use codestra_middleware.Json.{Value, text}
use codestra_middleware.Text.{lower}
use codestra_middleware.AiJobs.{
  JobState, queued, leased, cancel_requested, completed, dead_letter, approved, Job, ApprovalState,
  Approval, Queue, audit, cancelled, approval_required,
}
use codestra_middleware.AiJobs.Admission.{
  Claim, admit, concurrency, active_profiles, profile_filter, claim, claimed, check_filter,
  runs_for, claim_among, take, candidate, is_claimable,
}
use codestra_middleware.AiJobs.Profiles.{effective_compatible_profiles}
use codestra_middleware.AiJobs.Endings.{is_dead}
use codestra_middleware.AiJobs.Approvals.{cancel, decide}
use codestra_middleware.AiJobs.Details.{sanitize_error_details}
use codestra_middleware.AiJobs.Runs.{
  Op, op_claim, op_finish, op_recover, op_retry, Hashes, apply, run,
}
use codestra_middleware.AiJobs.Histories.{Everywhere}
use codestra_middleware.AiJobs.Attempts.{IsBounded, run-IsBounded}
use codestra_middleware.AiJobs.Fencing.{stale_token_refused}
use codestra_middleware.AiJobs.Decisions.{agrees, AllRouted, dead_letters_stay}
use codestra_middleware.AiJobs.Endstates.{run_keeps_final, cancelled_approval_hangs}
use codestra_middleware.AiJobs.Reopened.{cancelled_is_decided}
use codestra_middleware.AiJobs.Selection.{Taken, claim-Taken}
use codestra_middleware.AiJobs.Claims.{count_claims, claims_end}
use codestra_middleware.AiJobs.Sanitizing.{IsClean, Holds, sanitize-IsClean}

abbrev hashes : Hashes
hashes = record {
  encoded_size = λ c. 100;
  payload_size = λ c. 100;
  payload_sha256 = λ c. c.command_id;
  request_sha256 = λ r. r.content;
  sha256 = λ s. s;
}

abbrev waiting : Job
waiting = record {
  organization_id = "org";
  workspace_id = "ws";
  state = queued;
  model_profile = some "fast-chat";
  request_sha256 = "hash";
  request_message_id = none;
  idempotency_key = "key";
  correlation_id = some "corr-0001";
  priority = 5;
  attempt_count = 0;
  max_attempts = 3;
  fencing_token = 0;
  lease_owner = none;
  lease_expires_at = none;
  next_attempt_at = 0;
  cancel_requested_at = none;
  completed_at = none;
  failure_code = none;
  output_bytes = 0;
  deadline_at = some (hours 1);
  created_at = 0;
  updated_at = 0;
  version = 0;
  approval_needed = false;
}

-- Claimed for the second time, until second 60.
abbrev held : Job
held = record waiting {
  state = leased;
  lease_owner = some "w";
  lease_expires_at = some (seconds 60);
  attempt_count = 2;
  fencing_token = 2;
}

abbrev tables : Job → Dict String Approval → Queue
tables job approvals = record {
  jobs = ("j", job) ∷ [];
  attempts = [];
  chunks = [];
  dead_letters = [];
  approvals = approvals;
  results = [];
  usage = [];
  heartbeats = [];
  registrations = (("w", "worker"), record { max_concurrency = 2; enabled = true }) ∷ [];
  conversations = [];
  messages = [];
  audits = [];
  events = [];
}

-- What holds of the only row holds of every row.
one-Everywhere :
    (P : Job → Option Approval → Type 0) (job : Job) (approvals : Dict String Approval)
    → P job (lookup "j" approvals)
    → Everywhere P (tables job approvals)
unfolding lookup
one-Everywhere P job approvals p id j e = elim (Bool-cases ("j" == id)) [
  | inl same ↦
      let is_id : "j" ≡ id = eq-of_== "j" id same in
      let is_j : job ≡ j = cc (rw same at e) in
      subst (λ x. P x (lookup id approvals)) is_j (subst (λ x. P job (lookup x approvals)) is_id p)
  | inr other ↦ absurd (cc (rw other at e))
]

one-AllRouted : (job : Job) → AllRouted (tables job [])
unfolding lookup
one-AllRouted job id = elim (Bool-cases ("j" == id)) [
  | inl same ↦ rw same tt
  | inr other ↦ rw other refl
]

abbrev caller : Claim
caller = record {
  worker_id = "w";
  lease_seconds = 60;
  correlation_id = "corr-0002";
  organization_id = none;
  workspace_id = none;
  service_id = some "worker";
  allowed_model_profiles = none;
}

abbrev late_report : Op
late_report = op_finish (seconds 10) "j" "old" 1 false none false "corr-0003" [] (none, none)

stale_token_refused_example :
    apply hashes late_report
      (run hashes (op_recover (seconds 5) (none, none) ∷ []) (tables held []))
    ≡ run hashes (op_recover (seconds 5) (none, none) ∷ []) (tables held [])
unfolding lookup
stale_token_refused_example =
    stale_token_refused hashes (op_recover (seconds 5) (none, none) ∷ []) late_report
      (tables held []) "j" 1 held (tt, tt) refl (omega arith) refl

held-IsBounded : IsBounded held none
held-IsBounded = record {
  counted = refl;
  within = omega arith;
  capped = omega arith;
  left = λ w. omega arith;
}

run-IsBounded_example :
    Everywhere IsBounded (run hashes (op_recover (seconds 70) (none, none) ∷ []) (tables held []))
unfolding lookup
run-IsBounded_example =
    run-IsBounded hashes (op_recover (seconds 70) (none, none) ∷ []) (tables held []) (tt, tt)
      (one-Everywhere IsBounded held [] held-IsBounded)

abbrev reclaims : List Op
reclaims = op_recover (seconds 70) (none, none) ∷ op_claim (seconds 71) caller ∷ []

claims_end_example : held.attempt_count + count_claims hashes "j" reclaims (tables held []) ≤ 10
unfolding lookup
claims_end_example =
    claims_end hashes reclaims (tables held []) "j" held (tt, (tt, tt))
      (one-Everywhere IsBounded held [] held-IsBounded) refl

abbrev dead : Job
dead = record waiting { state = dead_letter; attempt_count = 3; fencing_token = 3 }

abbrev retries : List Op
retries = op_retry (hours 2) "j" "a" "org" "ws" "operator" "corr-0004" ∷ []

dead_letters_stay_example :
    (k : Job) × (lookup "j" (run hashes retries (tables dead [])).jobs ≡ some k)
    × (is_dead k.state ≡ true)
unfolding lookup
dead_letters_stay_example =
    dead_letters_stay hashes retries (tables dead []) "j" dead (tt, tt) (one-AllRouted dead) refl
      refl

abbrev done : Job
done = record waiting { state = completed; attempt_count = 1; fencing_token = 1 }

run_keeps_final_example :
    (k : Job) × (lookup "j" (run hashes reclaims (tables done [])).jobs ≡ some k)
    × (k.state ≡ completed)
unfolding lookup
run_keeps_final_example =
    run_keeps_final hashes reclaims (tables done []) "j" done (tt, (tt, tt)) refl refl
      (λ b e. absurd (cc))

abbrev agreed : Approval
agreed = record {
  approval_id = "a";
  organization_id = "org";
  workspace_id = "ws";
  state = ApprovalState.approved;
  decided_at = some (seconds 100);
}

abbrev value_of : Outcome (JobState × Queue) → JobState × Queue
value_of (ok r) = r
value_of (err e) = (queued, tables waiting [])

abbrev granted : Queue
granted = tables (record done { state = approved }) (("j", agreed) ∷ [])

granted-AllRouted : AllRouted granted
unfolding lookup agrees
granted-AllRouted id = elim (Bool-cases ("j" == id)) [
  | inl same ↦ rw same (refl, refl)
  | inr other ↦ rw other refl
]

abbrev cancelled_too_late : Queue
cancelled_too_late = (value_of (cancel (seconds 200) "j" "org" "ws" "corr-0005" granted)).1

cancelled_approval_hangs_example :
    (k : Job) × (lookup "j" (run hashes reclaims cancelled_too_late).jobs ≡ some k)
    × (k.state ≡ cancel_requested)
unfolding lookup cancel
cancelled_approval_hangs_example =
    cancelled_approval_hangs hashes reclaims (seconds 200) "j" "org" "ws" "corr-0005" granted
      cancelled_too_late cancel_requested agreed granted-AllRouted refl refl refl (tt, (tt, tt))

abbrev open_approval : Approval
open_approval = record agreed { state = ApprovalState.pending; decided_at = none }

abbrev asking : Job
asking = record done { state = approval_required }

abbrev cancelled_open : Queue
cancelled_open =
    (value_of (
      cancel (seconds 200) "j" "org" "ws" "corr-0006"
        (tables asking (("j", open_approval) ∷ [])))).1

cancelled_is_decided_example :
    (k : Job) × (lookup "j" cancelled_open.jobs ≡ some k)
    × (k.state ≡ cancelled)
    × ((q : Queue) × (l : Job) × (decide
            (seconds 300)
            "j"
            "org"
            "ws"
            "corr-0007"
            true
            cancelled_open
          ≡ ok (approved, q))
        × (lookup "j" q.jobs ≡ some l)
        × (l.state ≡ approved))
unfolding lookup cancel
cancelled_is_decided_example =
    cancelled_is_decided (seconds 200) (seconds 300) "j" "org" "ws" "corr-0006" "corr-0007" true
      (tables asking (("j", open_approval) ∷ [])) cancelled_open cancelled asking open_approval refl
      refl refl refl refl refl refl

abbrev claim_result : Queue → Outcome (Option (String × Job) × Queue) → Queue
claim_result q (ok r) = r.1
claim_result q (err e) = q

abbrev after_claim : Queue
after_claim = claim_result (tables waiting []) (claim (seconds 1) caller (tables waiting []))

abbrev row : Job
row = claimed (seconds 1) caller waiting

claim_runs : claim (seconds 1) caller (tables waiting []) ≡ ok (some ("j", row), after_claim)
unfolding claim check_filter admit concurrency active_profiles runs_for claim_among take candidate
    is_claimable profile_filter effective_compatible_profiles lookup insert audit
claim_runs = refl

claim-Taken_example :
    (active : List (Option String)) × (admit (seconds 1) caller (some "worker") (tables waiting [])
      ≡ ok active)
    × Taken
        (seconds 1)
        caller
        (profile_filter caller (effective_compatible_profiles active none))
        "j"
        row
        (tables waiting [])
        after_claim
claim-Taken_example =
    claim-Taken (seconds 1) caller (tables waiting []) after_claim "j" row claim_runs

abbrev reported : Dict String Value
reported = ("Category", text "oom") ∷ ("stack", text "secret") ∷ ("provider", text "a\nb") ∷ []

sanitize-IsClean_example :
    All IsClean (sanitize_error_details reported)
    × ((key : String) (value : Value)
        → lookup key reported ≡ some value
        → IsClean (lower key, value)
        → Holds (lower key) (sanitize_error_details reported))
sanitize-IsClean_example = sanitize-IsClean reported

sanitize_runs : sanitize_error_details reported ≡ ("category", text "oom") ∷ []
unfolding sanitize_error_details
sanitize_runs = refl
