-- ===== src/Controller/Tests.antt =====
-- The theorems on app/core/controller.py and app/agent/security.py at one controller with an approved
-- task, and tests of its operations.
use codestra_middleware.Base.{
  ◌+◌, ◌<◌, ◌≤◌, ◌≡◌, ◌≢◌, refl, true, false, some, List, [], ◌∷◌, String, ok, contains, string_eq,
  pair_eq, lookup, insert, arith, Bool-cases, inl, inr, ◌==◌, eq-of_==,
}
use codestra_middleware.Json.{Value, object, end, text, field}
use codestra_middleware.Text.{split_once}
use codestra_middleware.Controller.Screening.{reject_forbidden, redact, is_forbidden}
use codestra_middleware.Controller.Tokens.{
  Claims, Signer, ApprovalTokens, new_tokens, in_scope, read, check, use_up, verify,
}
use codestra_middleware.Controller.Tasks.{
  created, approved, cancelled, is_allowed_tool, TaskBody, TaskRecord, Execution, Hashes, Paths,
  Controller, validate_workspace, find_task, audit, audited,
}
use codestra_middleware.Controller.Operations.{
  Call, is_executable, new_task, add_task, reuse_or_add, create_task, execution_of,
  authorized_state, execute,
}
use codestra_middleware.Controller.Servers.{Registration}
use codestra_middleware.Controller.Fleet.{AreVetted, run-AreVetted}
use codestra_middleware.Controller.Runs.{op_register, Op, op_create, op_cancel, run}
use codestra_middleware.Controller.Audit.{IsAudited, run-IsAudited}
use codestra_middleware.Controller.Replay.{IsSigned}
use codestra_middleware.Controller.Authority.{execute_once, execute_sound}
use codestra_middleware.Controller.Histories.{Goes, IsKeyed, Later}
use codestra_middleware.Controller.Idempotence.{create_task_replays, run_keeps_tasks}
use codestra_middleware.Controller.Agents.{
  Certificates, controller_spiffe, certificate_identity, approval_tokens, authorize_agent_request,
  authorize_again,
}

abbrev claims : Claims
claims = record {
  task_id = some "t";
  tenant_id = some "acme";
  server_id = some "middleware";
  workspace = some "/w";
  tools = "read_file" ∷ [];
  plan_hash = "p";
  approver_hash = "a";
  iat = 0;
  exp = 300;
  jti = "j";
}

abbrev signer : Signer
signer = record { sign = λ s. s; encode = λ c. "x"; decode = λ s. some claims }

abbrev hashes : Hashes
hashes = record {
  sha256 = λ s. s;
  of_body = λ b. b.title;
  of_steps = λ s. "p";
  of_entry = λ e. e.action;
  of_envelope = λ e. e.execution_id;
  of_registration = λ r. r.server_id;
  canonical_verification = λ v. v.verification_code;
}

abbrev paths : Paths
paths = record { is_absolute = λ p. true; parts = λ p. p ∷ []; resolve = λ p. p }

abbrev roots : List String
roots = "/w" ∷ []

abbrev task : TaskRecord
task = record {
  task_id = "t";
  tenant_id = "acme";
  workspace = "/w";
  title = "title";
  objective = "objective";
  request_id = "r";
  correlation_id = "c";
  idempotency_key_hash = "k";
  request_hash = "title";
  state = approved;
  plan = [];
  plan_hash = "p";
  approval_token = "x.x";
}

abbrev tokens : ApprovalTokens
tokens = record { ttl_seconds = 300; consumed = [] }

abbrev empty : Controller
empty = record {
  tokens = tokens;
  tasks = [];
  executions = [];
  verifications = [];
  agents = [];
  audits = [];
  idempotency = [];
}

abbrev controller : Controller
controller = record empty { tasks = ("t", task) ∷ [] }

abbrev call : Call
call = record {
  task_id = "t";
  tenant_id = "acme";
  server_id = "middleware";
  tool = "read_file";
  workspace = "/w";
  arguments = object end;
  token = "x.x";
  request_id = "r";
  correlation_id = "c";
}

abbrev execution : Execution
execution = execution_of hashes "e" call "/w" task

abbrev executed : Controller
executed =
    authorized_state hashes 10 task (record tokens { consumed = "j" ∷ [] }) execution controller

execute_runs : execute hashes signer paths roots 10 "e" call controller ≡ ok (execution, executed)
unfolding execute is_allowed_tool validate_workspace reject_forbidden is_forbidden find_task verify
    read check in_scope use_up split_once lookup
execute_runs = refl

-- The token is used up by the first call, whatever runs before the second.
execute_once_example :
    execute hashes signer paths roots 20 "f" call
      (run hashes signer paths roots (op_cancel 15 "u" "acme" ∷ []) executed)
    ≢ ok (execution, executed)
execute_once_example =
    execute_once hashes signer paths roots 10 20 "e" "f" call call controller executed execution
      (op_cancel 15 "u" "acme" ∷ []) execute_runs refl (execution, executed)

execute_sound_example :
    (is_allowed_tool "read_file" ≡ true)
    × (validate_workspace paths roots "/w" ≡ ok "/w")
    × (execution.envelope.arguments ≡ redact call.arguments)
    × ((t : TaskRecord) × (find_task "t" "acme" controller ≡ ok t)
        × (is_executable t.state ≡ true)
        × ("p" ≡ t.plan_hash))
    × ((k : Claims) × IsSigned signer call.token k
        × (k.iat ≤ 10 + 5)
        × (10 < k.exp)
        × (k.task_id ≡ some "t")
        × (k.tenant_id ≡ some "acme")
        × (k.server_id ≡ some "middleware")
        × (k.workspace ≡ some "/w")
        × (contains "read_file" k.tools ≡ true)
        × (executed.tokens.consumed ≡ k.jti ∷ []))
unfolding audit
execute_sound_example =
    execute_sound hashes signer paths roots 10 "e" call controller executed execution execute_runs

empty-IsAudited : IsAudited hashes empty
unfolding lookup
empty-IsAudited = record { chains = λ id records e. absurd (cc e) }

abbrev body : TaskBody
body = record { title = "title"; objective = "objective"; workspace = "/w" }

abbrev creation : Op
creation = op_create 1 "u" body "acme" "r" "c" "k"

run-IsAudited_example :
    IsAudited hashes (run hashes signer paths roots (creation ∷ op_cancel 2 "u" "acme" ∷ []) empty)
run-IsAudited_example =
    run-IsAudited hashes signer paths roots (creation ∷ op_cancel 2 "u" "acme" ∷ []) empty
      empty-IsAudited

-- One entry alone is kept under its identifier.
one-IsKeyed : (c : Controller) (t : TaskRecord) → c.tasks ≡ (t.task_id, t) ∷ [] → IsKeyed c
unfolding lookup
one-IsKeyed c t e id u found = elim (Bool-cases (t.task_id == id)) [
  | inl same ↦ cc (rw (e, same) at found, eq-of_== t.task_id id same)
  | inr other ↦ absurd (cc (rw (e, other) at found))
]

run_keeps_tasks_example :
    Later task "t" (run hashes signer paths roots (op_cancel 2 "t" "acme" ∷ []) controller).tasks
unfolding lookup
run_keeps_tasks_example =
    run_keeps_tasks hashes signer paths roots "t" task (op_cancel 2 "t" "acme" ∷ []) controller
      (one-IsKeyed controller task refl) ((λ id e. absurd (cc e)), tt) refl

abbrev stopped : Controller
stopped = record empty { tasks = ("t", record task { state = cancelled }) ∷ [] }

abbrev fresh : TaskRecord
fresh = new_task hashes "u" "/w" body "acme" "r" "c" "k"

abbrev created_state : Controller
created_state = add_task hashes 1 fresh empty

create_task_runs :
    create_task hashes paths roots 1 "u" body "acme" "r" "c" "k" empty
    ≡ ok ((fresh, false), created_state)
unfolding create_task validate_workspace reuse_or_add lookup
create_task_runs = refl

-- The first task is cancelled before its key comes again.
create_task_replays_example :
    (t : TaskRecord) × (t.task_id ≡ "u")
    × Goes created t.state
    × (create_task hashes paths roots 9 "v" body "acme" "r2" "c2" "k"
          (run hashes signer paths roots (op_cancel 5 "u" "acme" ∷ []) created_state)
        ≡ ok ((t, true), run hashes signer paths roots (op_cancel 5 "u" "acme" ∷ []) created_state))
unfolding audit audited insert
create_task_replays_example =
    create_task_replays hashes signer paths roots 1 9 "u" "v" body "acme" "r" "c" "r2" "c2" "k"
      empty created_state fresh false (op_cancel 5 "u" "acme" ∷ [])
      (one-IsKeyed created_state fresh refl) ((λ id e. absurd (cc e)), tt) create_task_runs

abbrev certificates : Certificates
certificates = record { uris = λ der. some (controller_spiffe ∷ []); fingerprint = λ der. der }

authorize_runs :
    authorize_agent_request signer certificates 10
      (some 32)
      (some "der")
      "x.x"
      "t"
      "acme"
      "/w"
      "read_file"
    ≡ ok (claims, (controller_spiffe, "der"))
unfolding authorize_agent_request certificate_identity approval_tokens new_tokens verify read check
    in_scope use_up split_once
authorize_runs = refl

-- The same token, four minutes later.
authorize_again_example :
    authorize_agent_request signer certificates 250
      (some 32)
      (some "der")
      "x.x"
      "t"
      "acme"
      "/w"
      "read_file"
    ≡ ok (claims, (controller_spiffe, "der"))
authorize_again_example =
    authorize_again signer certificates 10 250 (some 32) (some "der") "x.x" "t" "acme" "/w"
      "read_file" claims (controller_spiffe, "der") (omega arith) (omega arith) authorize_runs

abbrev arguments : Value
arguments = object (field "path" (text "a.py") (field "Token" (text "s3cret") end))

new_tokens_runs : new_tokens 32 5 ≡ ok (record { ttl_seconds = 30; consumed = [] })
unfolding new_tokens
new_tokens_runs = refl

empty-AreVetted : AreVetted empty
unfolding lookup
empty-AreVetted = λ id a e. absurd (cc e)

abbrev registration : Registration
registration = record {
  server_id = "qwen";
  spiffe_id = "spiffe://codestra.internal/agent/qwen";
  private_endpoint = "10.40.0.4:9443";
  profile = "DEVELOPMENT";
  certificate_sha256 = "ABCDEF0123456789ABCDEF0123456789ABCDEF0123456789ABCDEF0123456789";
  certificate_serial = "1";
  not_after = "2027-01-01T00:00:00Z";
  rotation_owner = "ops";
  public_listener = false;
}

run-AreVetted_example :
    AreVetted (run hashes signer paths roots (op_register registration ∷ creation ∷ []) empty)
run-AreVetted_example =
    run-AreVetted hashes signer paths roots (op_register registration ∷ creation ∷ []) empty
      empty-AreVetted
