-- ===== src/Controller/Tasks.antt =====
-- `RestrictedController` of app/core/controller.py: tasks, their plans and approvals, and the
-- executions that a token authorizes. A method that raises leaves the controller as it was. Hashes
-- (canonical JSON under SHA-256) are the operations of `Hashes`, and `pathlib` those of `Paths`.
use Prim.Native.String.{compare}
use package.text.Mathlib.Text.{is_lt}
use codestra_middleware.Base.{
  ℕ, ◌+◌, Bool, true, false, not, ◌&&◌, ◌||◌, List, [], ◌∷◌, ◌++◌, String, ok, ◌>>=◌, ◌>>◌,
  raise_if, or_raise, if◌then◌else◌, contains, any, length, string_eq, pair_eq, ◌==◌, Dict, lookup,
  lookup_or, insert,
}
use codestra_middleware.Raised.{Outcome, controller_error}
use codestra_middleware.Json.{Value, text}
use codestra_middleware.Controller.Screening.{redact}
use codestra_middleware.Controller.Servers.{Registration, AgentRecord, Verification}
use codestra_middleware.Controller.Tokens.{ApprovalTokens}

pub data TaskState : Type 0 where
  created planning plan_ready awaiting_approval approved executing verifying : TaskState
  completed failed cancelled dead_letter : TaskState

abbrev pub allowed_tools : List String
allowed_tools =
    "inspect_workspace" ∷ "list_files" ∷ "read_file" ∷ "search_code" ∷ "git_status" ∷ "git_diff"
    ∷ "apply_patch" ∷ "run_formatter" ∷ "run_linter" ∷ "run_typecheck" ∷ "run_unit_tests"
    ∷ "run_integration_tests" ∷ "run_security_scan" ∷ "run_secret_scan" ∷ "build_project"
    ∷ "check_service" ∷ "read_sanitized_logs" ∷ "restart_development_service" ∷ []

unfoldable pub is_allowed_tool : String → Bool
is_allowed_tool tool = contains tool allowed_tools

pub record Step : Type 0 where
  pub tool : String
  pub arguments : Value

pub record TaskBody : Type 0 where
  pub title : String
  pub objective : String
  pub workspace : String

pub record TaskRecord : Type 0 where
  pub task_id : String
  pub tenant_id : String
  pub workspace : String
  pub title : String
  pub objective : String
  pub request_id : String
  pub correlation_id : String
  pub idempotency_key_hash : String
  pub request_hash : String
  pub state : TaskState
  pub plan : List Step
  pub plan_hash : String
  pub approval_token : String

-- An audit record before its hash is added.
pub record AuditEntry : Type 0 where
  pub sequence : ℕ
  pub task_id : String
  pub tenant_id : String
  pub action : String
  pub details : Value
  pub previous_hash : String
  pub recorded_at : ℕ

pub record AuditRecord : Type 0 where
  pub entry : AuditEntry
  pub record_hash : String

-- The envelope of an authorized execution before its evidence hash is added; its `state` is always
-- `"AUTHORIZED"`.
pub record Envelope : Type 0 where
  pub execution_id : String
  pub task_id : String
  pub tenant_id : String
  pub server_id : String
  pub workspace : String
  pub tool : String
  pub arguments : Value
  pub state : String
  pub request_id : String
  pub correlation_id : String
  pub plan_hash : String

pub record Execution : Type 0 where
  pub envelope : Envelope
  pub evidence_hash : String

pub record Hashes : Type 0 where
  pub sha256 : String → String
  pub of_body : TaskBody → String
  pub of_steps : List Step → String
  pub of_entry : AuditEntry → String
  pub of_envelope : Envelope → String
  pub of_registration : Registration → String
  pub canonical_verification : Verification → String

pub record Paths : Type 0 where
  pub is_absolute : String → Bool
  pub parts : String → List String
  pub resolve : String → String

pub record Controller : Type 0 where
  pub tokens : ApprovalTokens
  pub tasks : Dict String TaskRecord
  pub executions : Dict String Execution
  pub verifications : Dict String (Verification × String)
  pub agents : Dict String AgentRecord
  pub audits : Dict String (List AuditRecord)
  pub idempotency : Dict (String × String) (String × String)

abbrev is_prefix : List String → List String → Bool
is_prefix [] ys = true
is_prefix (x ∷ xs) [] = false
is_prefix (x ∷ xs) (y ∷ ys) = x == y && is_prefix xs ys

-- `validate_workspace`
unfoldable pub validate_workspace : Paths → List String → String → Outcome String
validate_workspace fs allowlist workspace = do
  raise_if (not (fs.is_absolute workspace) || contains ".." (fs.parts workspace))
      (controller_error "workspace path denied")
  let normalized = fs.resolve workspace
  raise_if
      (not (
        any (λ root. normalized == root || is_prefix (fs.parts root) (fs.parts normalized))
          allowlist))
      (controller_error "workspace is outside the allowlist")
  ok normalized

-- `sorted({…})`: each text once, in order.
unfoldable pub insert_sorted : String → List String → List String
insert_sorted x [] = x ∷ []
insert_sorted x (y ∷ ys) =
    let rest = insert_sorted x ys in
    if x == y then y ∷ ys else if is_lt (compare x y) then x ∷ y ∷ ys else y ∷ rest

unfoldable pub sorted_set : List String → List String
unfolding insert_sorted
sorted_set [] = []
sorted_set (x ∷ xs) = insert_sorted x (sorted_set xs)

abbrev pub last_hash : List AuditRecord → String → String
last_hash [] h = h
last_hash (r ∷ rs) h = last_hash rs r.record_hash

-- The hash that the first record of a task refers to.
abbrev pub genesis : String
genesis = "0000000000000000000000000000000000000000000000000000000000000000"

module _ (h : Hashes) where
  -- The records of the task with the new one.
  unfoldable pub audited : ℕ → TaskRecord → String → Value → Controller → List AuditRecord
  audited now task action details c =
      let previous = lookup_or task.task_id [] c.audits in
      let entry : AuditEntry = record {
        sequence = length previous + 1;
        task_id = task.task_id;
        tenant_id = task.tenant_id;
        action = action;
        details = redact details;
        previous_hash = last_hash previous genesis;
        recorded_at = now;
      } in
      previous ++ record { entry = entry; record_hash = h.of_entry entry } ∷ []

  -- `_audit`
  unfoldable pub audit : ℕ → TaskRecord → String → Value → Controller → Controller
  audit now task action details c = record c {
    audits = insert task.task_id (audited now task action details c) c.audits;
  }

-- `_task`
unfoldable pub find_task : String → String → Controller → Outcome TaskRecord
find_task task_id tenant_id c = do
  task ← or_raise (lookup task_id c.tasks) (controller_error "task not found")
  raise_if (not (task.tenant_id == tenant_id)) (controller_error "task not found")
  ok task
