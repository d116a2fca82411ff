-- ===== src/Controller/Outcomes.antt =====
-- What each operation of app/core/controller.py has gone through when it returns.
use codestra_middleware.Base.{
  ℕ, ◌≡◌, refl, sym, ap, ◌∙◌, Bool, true, false, not, ◌||◌, Option, none, some, List, String,
  Result, ok, string_eq, pair_eq, ◌==◌, lookup, arith, >>=-elim, raise_if-elim, inl, inr, ◌⊎◌,
}
use codestra_middleware.Json.{Value}
use codestra_middleware.Controller.Screening.{reject_forbidden}
use codestra_middleware.Controller.Tokens.{ApprovalTokens, Signer, Claims, verify}
use codestra_middleware.Controller.Tasks.{
  TaskState, approved, awaiting_approval, cancelled, is_allowed_tool, Step, TaskBody, TaskRecord,
  Execution, Hashes, Paths, Controller, validate_workspace, audit, find_task,
}
use codestra_middleware.Controller.Operations.{
  Call, demand_of, is_created, is_awaiting, is_executable, is_finished, check_steps, store,
  new_task, add_task, reuse_or_add, create_task, plan, approve, cancel, execution_of,
  authorized_state, execute,
}

-- The controller of an operation that has changed one task.
abbrev pub stored_with : Hashes → ℕ → TaskRecord → String → Value → Controller → Controller
stored_with h now task action details c = audit h now task action details (store task c)

-- A task has gone from a state that passes the test to the given one, and keeps its identity.
pub record Moved (before : TaskState → Bool) (after : TaskState) (task_id tenant_id : String)
    (c : Controller) (new : TaskRecord) : Type 0 where
  pub old : TaskRecord
  pub found : find_task task_id tenant_id c ≡ ok old
  pub ready : before old.state ≡ true
  pub reached : new.state ≡ after
  pub same_id : new.task_id ≡ old.task_id
  pub same_tenant : new.tenant_id ≡ old.tenant_id
  pub same_key : new.idempotency_key_hash ≡ old.idempotency_key_hash
  pub same_request : new.request_hash ≡ old.request_hash

ok-pair {ℓ κ} :
    {E : Type 0} {A : Type ℓ} {B : Type κ} {a a' : A} {b b' : B}
    → ◌≡◌ {A = Result E (A × B)} (ok (a, b)) (ok (a', b'))
    → (a ≡ a') × (b ≡ b')
ok-pair e = (cc e, cc e)

-- The last step of an operation on a task.
finish :
    {before : TaskState → Bool} {task_id tenant_id : String} {c : Controller}
    {task planned new : TaskRecord}
    → find_task task_id tenant_id c ≡ ok task
    → before task.state ≡ true
    → planned.task_id ≡ task.task_id
    → planned.tenant_id ≡ task.tenant_id
    → planned.idempotency_key_hash ≡ task.idempotency_key_hash
    → planned.request_hash ≡ task.request_hash
    → planned ≡ new
    → Moved before planned.state task_id tenant_id c new
finish {task = task} found ready id tenant key request e = record {
  old = task;
  found = found;
  ready = ready;
  reached = cc e;
  same_id = cc (e, id);
  same_tenant = cc (e, tenant);
  same_key = cc (e, key);
  same_request = cc (e, request);
}

module _ (h : Hashes) where
  stored_eq :
      (now : ℕ) (planned new : TaskRecord) (action : String) (details : Value) (c c' : Controller)
      → planned ≡ new
      → stored_with h now planned action details c ≡ c'
      → c' ≡ stored_with h now new action details c
  stored_eq now planned new action details c c' e f =
      sym f ∙ ap (λ t. stored_with h now t action details c) e

  -- A plan takes a new task to its approval, if its tools and arguments are allowed.
  pub plan-Moved :
      (now : ℕ) (task_id tenant_id : String) (steps : List Step) (c c' : Controller)
      (new : TaskRecord)
      → plan h now task_id tenant_id steps c ≡ ok (new, c')
      → Moved is_created awaiting_approval task_id tenant_id c new
        × (check_steps steps ≡ ok tt)
        × (details : Value) × (c' ≡ stored_with h now new "task.plan_ready" details c)
  unfolding plan
  plan-Moved now task_id tenant_id steps c c' new e =
      >>=-elim (find_task task_id tenant_id c) _ e λ task found e₁.
        raise_if-elim (not (is_created task.state)) _ _ e₁ λ ready e₂.
          >>=-elim (check_steps steps) _ e₂ λ u checked e₃.
            let (same, rest) = ok-pair e₃ in
            (
              finish found (ground arith) refl refl refl refl same,
              checked,
              _,
              stored_eq now _ new "task.plan_ready" _ c c' same rest,
            )

  -- An approval takes a task that awaits it, at the plan that the approver has seen.
  pub approve-Moved :
      (s : Signer) (now : ℕ) (jti task_id tenant_id plan_hash approver server_id : String)
      (c c' : Controller) (new : TaskRecord) (token : String)
      → approve h s now jti task_id tenant_id plan_hash approver server_id c ≡ ok ((new, token), c')
      → Moved is_awaiting approved task_id tenant_id c new
        × (details : Value) × (c' ≡ stored_with h now new "task.approved" details c)
  unfolding approve
  approve-Moved s now jti task_id tenant_id plan_hash approver server_id c c' new token e =
      >>=-elim (find_task task_id tenant_id c) _ e λ task found e₁.
        raise_if-elim (not (is_awaiting task.state) || not (task.plan_hash == plan_hash)) _ _ e₁
          λ ready e₂.
            let (pair, rest) = ok-pair e₂ in
            let same : _ ≡ new = ap (λ p. p.0) pair in
            (
              finish found (ground arith) refl refl refl refl same,
              _,
              stored_eq now _ new "task.approved" _ c c' same rest,
            )

  pub cancel-Moved :
      (now : ℕ) (task_id tenant_id : String) (c c' : Controller) (new : TaskRecord)
      → cancel h now task_id tenant_id c ≡ ok (new, c')
      → Moved (λ s. not (is_finished s)) cancelled task_id tenant_id c new
        × (details : Value) × (c' ≡ stored_with h now new "task.cancelled" details c)
  unfolding cancel
  cancel-Moved now task_id tenant_id c c' new e =
      >>=-elim (find_task task_id tenant_id c) _ e λ task found e₁.
        raise_if-elim (is_finished task.state) _ _ e₁ λ ready e₂.
          let (same, rest) = ok-pair e₂ in
          (
            finish found (ground arith) refl refl refl refl same,
            _,
            stored_eq now _ new "task.cancelled" _ c c' same rest,
          )

  -- What stands behind an execution that is authorized.
  pub record Authorized (s : Signer) (fs : Paths) (roots : List String) (now : ℕ)
      (execution_id : String) (q : Call) (c : Controller) (x : Execution) (c' : Controller)
      : Type 0 where
    pub normalized : String
    pub task : TaskRecord
    pub claims : Claims
    pub left : ApprovalTokens
    pub tool_allowed : is_allowed_tool q.tool ≡ true
    pub in_workspace : validate_workspace fs roots q.workspace ≡ ok normalized
    pub screened : reject_forbidden q.arguments "arguments" ≡ ok tt
    pub found : find_task q.task_id q.tenant_id c ≡ ok task
    pub ready : is_executable task.state ≡ true
    pub verified : verify s c.tokens q.token (demand_of q normalized) true now ≡ ok (claims, left)
    pub execution : x ≡ execution_of h execution_id q normalized task
    pub result : c' ≡ authorized_state h now task left x c

  unnegate : (b : Bool) → not b ≡ false → b ≡ true
  unnegate b e = ground arith

  pub execute-Authorized :
      (s : Signer) (fs : Paths) (roots : List String) (now : ℕ) (execution_id : String) (q : Call)
      (c c' : Controller) (x : Execution)
      → execute h s fs roots now execution_id q c ≡ ok (x, c')
      → Authorized s fs roots now execution_id q c x c'
  unfolding execute
  execute-Authorized s fs roots now execution_id q c c' x e =
      raise_if-elim (not (is_allowed_tool q.tool)) _ _ e λ allowed e₁.
        >>=-elim (validate_workspace fs roots q.workspace) _ e₁ λ normalized inside e₂.
          >>=-elim (reject_forbidden q.arguments "arguments") _ e₂ λ u screened e₃.
            >>=-elim (find_task q.task_id q.tenant_id c) _ e₃ λ task found e₄.
              raise_if-elim (not (is_executable task.state)) _ _ e₄ λ ready e₅.
                >>=-elim (verify s c.tokens q.token _ true now) _ e₅ λ v verified e₆.
                  let (same, rest) = ok-pair e₆ in
                  record {
                    normalized = normalized;
                    task = task;
                    claims = v.0;
                    left = v.1;
                    tool_allowed = unnegate _ allowed;
                    in_workspace = inside;
                    screened = screened;
                    found = found;
                    ready = unnegate _ ready;
                    verified = verified;
                    execution = sym same;
                    result = sym rest ∙ ap (λ y. authorized_state h now task v.1 y c) same;
                  }

  -- A creation returns the task that the tenant's key stands for, or adds a new one.
  abbrev pub Created : ℕ → TaskRecord → Controller → TaskRecord → Bool → Controller → Type 0
  Created now fresh c task replay c' =
      ((c' ≡ c) × (replay ≡ true))
      ⊎ ((lookup (fresh.tenant_id, fresh.idempotency_key_hash) c.idempotency ≡ none)
          × (replay ≡ false)
          × (task ≡ fresh)
          × (c' ≡ add_task h now fresh c))

  reuse_or_add-Created :
      (now : ℕ) (fresh : TaskRecord) (c c' : Controller) (task : TaskRecord) (replay : Bool)
      (prior : Option (String × String))
      → lookup (fresh.tenant_id, fresh.idempotency_key_hash) c.idempotency ≡ prior
      → reuse_or_add h now fresh c prior ≡ ok ((task, replay), c')
      → Created now fresh c task replay c'
  unfolding reuse_or_add
  reuse_or_add-Created now fresh c c' task replay none unused e =
      let (same, rest) = ok-pair e in
      inr (unused, sym (ap (λ p. p.1) same), sym (ap (λ p. p.0) same), sym rest)
  reuse_or_add-Created now fresh c c' task replay (some prior) used e =
      raise_if-elim (not (prior.0 == fresh.request_hash)) _ _ e λ agree e₁.
        >>=-elim (find_task prior.1 fresh.tenant_id c) _ e₁
          λ old found e₂. let (same, rest) = ok-pair e₂ in inl (sym rest, sym (ap (λ p. p.1) same))

  pub create_task-Created :
      (fs : Paths) (roots : List String) (now : ℕ) (task_id : String) (body : TaskBody)
      (tenant_id request_id correlation_id key : String) (c c' : Controller) (task : TaskRecord)
      (replay : Bool)
      → create_task h fs roots now task_id body tenant_id request_id correlation_id key c
        ≡ ok ((task, replay), c')
      → (workspace : String) × Created now
          (new_task h task_id workspace body tenant_id request_id correlation_id key)
          c
          task
          replay
          c'
  unfolding create_task
  create_task-Created fs roots now task_id body tenant_id request_id correlation_id key c c' task
        replay e =
      >>=-elim (validate_workspace fs roots body.workspace) _ e
        λ workspace inside e₁. (workspace, reuse_or_add-Created now _ c c' task replay _ refl e₁)
