-- ===== src/Controller/Operations.antt =====
-- The operations of `RestrictedController` (app/core/controller.py) on tasks. What `uuid4` and the
-- clock give is an argument.
use codestra_middleware.Base.{
  ℕ, Bool, true, false, not, ◌||◌, Option, none, some, List, [], ◌∷◌, map, String, ok, ◌>>=◌, ◌>>◌,
  raise_if, string_eq, pair_eq, ◌==◌, ⊤, lookup, insert,
}
use codestra_middleware.Raised.{Outcome, controller_error}
use codestra_middleware.Json.{Value, text, object, end, field}
use codestra_middleware.Controller.Screening.{reject_forbidden, redact}
use codestra_middleware.Controller.Tokens.{ApprovalTokens, Signer, Grant, Demand, issue, verify}
use codestra_middleware.Controller.Tasks.{
  TaskState, created, awaiting_approval, approved, executing, completed, failed, cancelled,
  dead_letter, is_allowed_tool, Step, TaskBody, TaskRecord, Envelope, Execution, Hashes, Paths,
  Controller, validate_workspace, sorted_set, audit, find_task,
}

abbrev pub is_created : TaskState → Bool
is_created created = true
is_created _ = false

abbrev pub is_awaiting : TaskState → Bool
is_awaiting awaiting_approval = true
is_awaiting _ = false

abbrev pub is_executable : TaskState → Bool
is_executable approved = true
is_executable executing = true
is_executable _ = false

abbrev pub is_finished : TaskState → Bool
is_finished completed = true
is_finished failed = true
is_finished cancelled = true
is_finished dead_letter = true
is_finished _ = false

-- The tools and arguments of a plan.
unfoldable pub check_steps : List Step → Outcome ⊤
check_steps [] = ok tt
check_steps (step ∷ steps) =
    raise_if (not (is_allowed_tool step.tool)) (controller_error "unknown tool")
    >> (reject_forbidden step.arguments "arguments" >> check_steps steps)

-- `self.tasks[task.task_id]` after the task has changed.
abbrev pub store : TaskRecord → Controller → Controller
store task c = record c { tasks = insert task.task_id task c.tasks }

abbrev one_field : String → String → Value
one_field key value = object (field key (text value) end)

-- The arguments of `execute`.
pub record Call : Type 0 where
  pub task_id : String
  pub tenant_id : String
  pub server_id : String
  pub tool : String
  pub workspace : String
  pub arguments : Value
  pub token : String
  pub request_id : String
  pub correlation_id : String

-- What the token of a call has to be for.
abbrev pub demand_of : Call → String → Demand
demand_of q normalized = record {
  task_id = q.task_id;
  tenant_id = q.tenant_id;
  server_id = q.server_id;
  workspace = normalized;
  tool = q.tool;
}

module _ (h : Hashes) where
  -- The task that a new key makes.
  abbrev pub new_task : String → String → TaskBody → String → String → String → String → TaskRecord
  new_task task_id workspace body tenant_id request_id correlation_id idempotency_key = record {
    task_id = task_id;
    tenant_id = tenant_id;
    workspace = workspace;
    title = body.title;
    objective = body.objective;
    request_id = request_id;
    correlation_id = correlation_id;
    idempotency_key_hash = h.sha256 idempotency_key;
    request_hash = h.of_body body;
    state = created;
    plan = [];
    plan_hash = "";
    approval_token = "";
  }

  -- The controller with a new task under its key.
  abbrev pub add_task : ℕ → TaskRecord → Controller → Controller
  add_task now task c =
      audit h now task "task.created" (one_field "request_id" task.request_id)
        (record (store task c) {
          idempotency =
              insert (task.tenant_id, task.idempotency_key_hash) (task.request_hash, task.task_id)
                c.idempotency;
        })

  -- The task that a key was used for, which must have been for the same request.
  unfoldable pub reuse_or_add :
      ℕ
      → TaskRecord
      → Controller
      → Option (String × String)
      → Outcome ((TaskRecord × Bool) × Controller)
  reuse_or_add now fresh c (some prior) = do
    raise_if (not (prior.0 == fresh.request_hash)) (controller_error "idempotency key conflict")
    task ← find_task prior.1 fresh.tenant_id c
    ok ((task, true), c)
  reuse_or_add now fresh c none = ok ((fresh, false), add_task now fresh c)

  -- A task that was created before for the tenant and the key, or a new one.
  unfoldable pub create_task :
      Paths
      → List String
      → ℕ
      → String
      → TaskBody
      → String
      → String
      → String
      → String
      → Controller
      → Outcome ((TaskRecord × Bool) × Controller)
  create_task fs roots now task_id body tenant_id request_id correlation_id key c = do
    workspace ← validate_workspace fs roots body.workspace
    let fresh = new_task task_id workspace body tenant_id request_id correlation_id key
    reuse_or_add now fresh c (lookup (tenant_id, h.sha256 key) c.idempotency)

  unfoldable pub plan :
      ℕ → String → String → List Step → Controller → Outcome (TaskRecord × Controller)
  plan now task_id tenant_id steps c = do
    task ← find_task task_id tenant_id c
    raise_if (not (is_created task.state)) (controller_error "invalid task state transition")
    check_steps steps
    let planned : TaskRecord = record task {
      plan = steps;
      plan_hash = h.of_steps steps;
      state = awaiting_approval;
    }
    ok (
      planned,
      audit h now planned "task.plan_ready" (one_field "plan_hash" planned.plan_hash)
          (store planned c),
    )

  unfoldable pub approve :
      Signer
      → ℕ
      → String
      → String
      → String
      → String
      → String
      → String
      → Controller
      → Outcome ((TaskRecord × String) × Controller)
  approve s now jti task_id tenant_id plan_hash approver server_id c = do
    task ← find_task task_id tenant_id c
    raise_if (not (is_awaiting task.state) || not (task.plan_hash == plan_hash))
        (controller_error "approval does not match current plan")
    let grant : Grant = record {
      task_id = task.task_id;
      tenant_id = tenant_id;
      server_id = server_id;
      workspace = task.workspace;
      tools = sorted_set (map (λ step. step.tool) task.plan);
      plan_hash = task.plan_hash;
      approver_hash = h.sha256 approver;
    }
    let token = issue s c.tokens grant now jti
    let confirmed : TaskRecord = record task { state = approved; approval_token = token }
    ok (
      (confirmed, token),
      audit h now confirmed "task.approved"
          (object (field "approver" (text "[REDACTED]") (field "server_id" (text server_id) end)))
          (store confirmed c),
    )

  unfoldable pub cancel : ℕ → String → String → Controller → Outcome (TaskRecord × Controller)
  cancel now task_id tenant_id c = do
    task ← find_task task_id tenant_id c
    raise_if (is_finished task.state) (controller_error "invalid task state transition")
    let stopped : TaskRecord = record task { state = cancelled }
    ok (stopped, audit h now stopped "task.cancelled" (object end) (store stopped c))

  -- The execution that `execute` authorizes.
  abbrev pub execution_of : String → Call → String → TaskRecord → Execution
  execution_of execution_id q normalized task =
      let envelope : Envelope = record {
        execution_id = execution_id;
        task_id = q.task_id;
        tenant_id = q.tenant_id;
        server_id = q.server_id;
        workspace = normalized;
        tool = q.tool;
        arguments = redact q.arguments;
        state = "AUTHORIZED";
        request_id = q.request_id;
        correlation_id = q.correlation_id;
        plan_hash = task.plan_hash;
      } in
      record { envelope = envelope; evidence_hash = h.of_envelope envelope }

  -- The controller that has authorized it, with the tokens that are left.
  abbrev pub authorized_state :
      ℕ → TaskRecord → ApprovalTokens → Execution → Controller → Controller
  authorized_state now task left x c =
      let running : TaskRecord = record task { state = executing } in
      audit h now running "execution.authorized"
        (object (
          field "execution_id" (text x.envelope.execution_id) (
            field "tool" (text x.envelope.tool)
              (field "evidence_hash" (text x.evidence_hash) end))))
        (record (store running c) {
          tokens = left;
          executions = insert x.envelope.execution_id x c.executions;
        })

  unfoldable pub execute :
      Signer
      → Paths
      → List String
      → ℕ
      → String
      → Call
      → Controller
      → Outcome (Execution × Controller)
  execute s fs roots now execution_id q c = do
    raise_if (not (is_allowed_tool q.tool)) (controller_error "unknown tool")
    normalized ← validate_workspace fs roots q.workspace
    reject_forbidden q.arguments "arguments"
    task ← find_task q.task_id q.tenant_id c
    raise_if (not (is_executable task.state)) (controller_error "invalid task state transition")
    verified ← verify s c.tokens q.token (demand_of q normalized) true now
    let execution = execution_of execution_id q normalized task
    ok (execution, authorized_state now task verified.1 execution c)
