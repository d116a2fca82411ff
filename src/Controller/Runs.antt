-- ===== src/Controller/Runs.antt =====
-- Runs of the controller (app/core/controller.py): the operations on tasks as data, what a sequence
-- of calls leaves, and the few ways in which a call changes the controller.
use codestra_middleware.Base.{
  insert, Dict, or_raise, ap, not, err, raise_if-elim, >>=-elim, ◌==◌, string_eq, ℕ, ◌≡◌, refl, sym,
  subst, Bool, true, false, List, [], ◌∷◌, String, ok, Option, none, some, pair_eq, lookup,
  eq-of_==, arith, inl, inr,
}
use codestra_middleware.Raised.{Outcome}
use codestra_middleware.Json.{Value}
use codestra_middleware.Controller.Tokens.{Signer, ApprovalTokens, Claims, Demand, verify}
use codestra_middleware.Controller.Tasks.{
  TaskState, created, planning, plan_ready, awaiting_approval, approved, executing, verifying,
  completed, failed, cancelled, dead_letter, Step, TaskBody, TaskRecord, Execution, Hashes, Paths,
  Controller, find_task,
}
use codestra_middleware.Controller.Operations.{
  Call, is_created, is_awaiting, is_executable, is_finished, add_task, create_task, plan, approve,
  cancel, authorized_state, execute,
}
use codestra_middleware.Controller.Servers.{Registration, AgentRecord, Verification, checked_agent}
use codestra_middleware.Controller.Registry.{same_registration, register_agent, verification}
use codestra_middleware.Controller.Outcomes.{
  stored_with, Moved, plan-Moved, approve-Moved, cancel-Moved, execute-Authorized,
  create_task-Created,
}

-- A call, with the instant and the identifiers that it draws.
pub data Op : Type 0 where
  op_create :
      (now : ℕ) (task_id : String) (body : TaskBody)
      (tenant_id request_id correlation_id key : String)
      → Op
  op_plan : (now : ℕ) (task_id tenant_id : String) (steps : List Step) → Op
  op_approve : (now : ℕ) (jti task_id tenant_id plan_hash approver server_id : String) → Op
  op_cancel : (now : ℕ) (task_id tenant_id : String) → Op
  op_execute : (now : ℕ) (execution_id : String) (q : Call) → Op
  op_register : (r : Registration) → Op
  op_verification : (verification_code execution_id tenant_id : String) → Op

-- The identifier of the task that a call may make.
abbrev pub new_id : Op → Option String
new_id (op_create now task_id body tenant_id request_id correlation_id key) = some task_id
new_id _ = none

-- The controller that a call leaves: the one that it returns, or the old one if it raises.
abbrev pub after {ℓ} : {A : Type ℓ} → Outcome (A × Controller) → Controller → Controller
after (ok (a, c')) c = c'
after (err e) c = c

pub after-elim {ℓ κ} :
    {A : Type ℓ} (P : Controller → Type κ) (m : Outcome (A × Controller)) (c : Controller)
    → P c
    → ((a : A) (c' : Controller) → m ≡ ok (a, c') → P c')
    → P (after m c)
after-elim P (ok (a, c')) c p f = f a c' refl
after-elim P (err e) c p f = p

-- The state changes that the operations make.
unfoldable pub leads : TaskState → TaskState → Bool
leads created awaiting_approval = true
leads awaiting_approval approved = true
leads approved executing = true
leads executing executing = true
leads s cancelled = not (is_finished s)
leads _ _ = false

leads-cancelled : (s : TaskState) → not (is_finished s) ≡ true → leads s cancelled ≡ true
unfolding leads
leads-cancelled created e = e
leads-cancelled planning e = e
leads-cancelled plan_ready e = e
leads-cancelled awaiting_approval e = e
leads-cancelled approved e = e
leads-cancelled executing e = e
leads-cancelled verifying e = e
leads-cancelled completed e = e
leads-cancelled failed e = e
leads-cancelled cancelled e = e
leads-cancelled dead_letter e = e

leads-executing : (s : TaskState) → is_executable s ≡ true → leads s executing ≡ true
unfolding leads
leads-executing approved e = refl
leads-executing executing e = refl
leads-executing s e = cc

leads-approved : (s : TaskState) → is_awaiting s ≡ true → leads s approved ≡ true
unfolding leads
leads-approved awaiting_approval e = refl
leads-approved s e = cc

leads-awaiting : (s : TaskState) → is_created s ≡ true → leads s awaiting_approval ≡ true
unfolding leads
leads-awaiting created e = refl
leads-awaiting s e = cc

pub find_task-lookup :
    (task_id tenant_id : String) (c : Controller) (t : TaskRecord)
    → find_task task_id tenant_id c ≡ ok t
    → (lookup task_id c.tasks ≡ some t) × (t.tenant_id ≡ tenant_id)
unfolding find_task
find_task-lookup task_id tenant_id c t e = ground (arith, eq-of_== t.tenant_id tenant_id)

module _ (h : Hashes) where
  -- What a call can have done: nothing, a new task, a task that has changed its state, an agent that
  -- is registered, a verification that is opened, or an execution for a token that it has consumed.
  pub data Effect (s : Signer) (op : Op) (c : Controller) : Controller → Type 0 where
    unchanged : Effect s op c c
    added :
        (now : ℕ) (fresh : TaskRecord)
        → lookup (fresh.tenant_id, fresh.idempotency_key_hash) c.idempotency ≡ none
        → new_id op ≡ some fresh.task_id
        → Effect s op c (add_task h now fresh c)
    moved :
        (now : ℕ) (task_id : String) (old new : TaskRecord) (action : String) (details : Value)
        → lookup task_id c.tasks ≡ some old
        → leads old.state new.state ≡ true
        → new.task_id ≡ old.task_id
        → new.tenant_id ≡ old.tenant_id
        → new.idempotency_key_hash ≡ old.idempotency_key_hash
        → new.request_hash ≡ old.request_hash
        → Effect s op c (stored_with h now new action details c)
    registered :
        (r : Registration) (new : AgentRecord)
        → checked_agent h.of_registration r ≡ ok new
        → Effect s op c (record c { agents = insert r.server_id new c.agents })
    opened :
        (verifications : Dict String (Verification × String))
        → Effect s op c (record c { verifications = verifications })
    ran :
        (now : ℕ) (task_id token : String) (d : Demand) (task : TaskRecord) (claims : Claims)
        (left : ApprovalTokens) (x : Execution)
        → lookup task_id c.tasks ≡ some task
        → leads task.state executing ≡ true
        → verify s c.tokens token d true now ≡ ok (claims, left)
        → Effect s op c (authorized_state h now task left x c)

  stored-Effect :
      {s : Signer} {op : Op} {before : TaskState → Bool} {reached : TaskState} (now : ℕ)
      (task_id tenant_id : String) (c c' : Controller) (new : TaskRecord) (action : String)
      (details : Value)
      → ((t : TaskState) → before t ≡ true → leads t reached ≡ true)
      → Moved before reached task_id tenant_id c new
      → c' ≡ stored_with h now new action details c
      → Effect s op c c'
  stored-Effect {s} {op} now task_id tenant_id c c' new action details goes m e =
      subst (Effect s op c) (sym e) (
        moved now task_id m.old new action details
          (find_task-lookup task_id tenant_id c m.old m.found).0
          (subst (λ t. leads m.old.state t ≡ true) (sym m.reached) (goes m.old.state m.ready))
          m.same_id m.same_tenant m.same_key m.same_request)

  register_agent-Effect :
      {s : Signer} {op : Op} (r : Registration) (c c' : Controller) (new : AgentRecord)
      → register_agent h r c ≡ ok (new, c')
      → Effect s op c c'
  unfolding register_agent
  register_agent-Effect {s} {op} r c c' new e =
      >>=-elim (checked_agent h.of_registration r) _ e λ a checked e₁.
        >>=-elim (same_registration a (lookup r.server_id c.agents)) _ e₁ λ u same e₂.
          let left : record c { agents = insert r.server_id a c.agents } ≡ c' = cc e₂ in
          subst (Effect s op c) left (registered r a checked)

  verification-Effect :
      {s : Signer} {op : Op} (code execution_id tenant_id : String) (c c' : Controller)
      (v : Verification × String)
      → verification h s code execution_id tenant_id c ≡ ok (v, c')
      → Effect s op c c'
  unfolding verification
  verification-Effect {s} {op} code execution_id tenant_id c c' v e =
      >>=-elim (or_raise (lookup execution_id c.executions) _) _ e λ x found e₁.
        raise_if-elim (not (x.envelope.tenant_id == tenant_id)) _ _ e₁ λ own e₂.
          let left = ap (λ y. elim y [ ok p ↦ p.1 | err z ↦ c ]) e₂ in
          subst (Effect s op c) left (opened _)

  module _ (s : Signer) (fs : Paths) (roots : List String) where
    -- The controller after a call.
    unfoldable pub apply : Op → Controller → Controller
    apply (op_create now task_id body tenant_id request_id correlation_id key) c =
        after (create_task h fs roots now task_id body tenant_id request_id correlation_id key c) c
    apply (op_plan now task_id tenant_id steps) c = after (plan h now task_id tenant_id steps c) c
    apply (op_approve now jti task_id tenant_id plan_hash approver server_id) c =
        after (approve h s now jti task_id tenant_id plan_hash approver server_id c) c
    apply (op_cancel now task_id tenant_id) c = after (cancel h now task_id tenant_id c) c
    apply (op_execute now execution_id q) c = after (execute h s fs roots now execution_id q c) c
    apply (op_register r) c = after (register_agent h r c) c
    apply (op_verification code execution_id tenant_id) c =
        after (verification h s code execution_id tenant_id c) c

    -- The controller after the calls, from the first to the last.
    unfoldable pub run : List Op → Controller → Controller
    run [] c = c
    run (op ∷ ops) c = run ops (apply op c)

    pub execute-Effect :
        (op : Op) (now : ℕ) (execution_id : String) (q : Call) (c c' : Controller) (x : Execution)
        → execute h s fs roots now execution_id q c ≡ ok (x, c')
        → Effect s op c c'
    execute-Effect op now execution_id q c c' x e =
        let a = execute-Authorized h s fs roots now execution_id q c c' x e in
        subst (Effect s op c) (sym a.result) (
          ran now q.task_id q.token _ a.task a.claims a.left x
            (find_task-lookup q.task_id q.tenant_id c a.task a.found).0
            (leads-executing a.task.state a.ready) a.verified)

    pub apply-Effect : (op : Op) (c : Controller) → Effect s op c (apply op c)
    unfolding apply
    apply-Effect (op_create now task_id body tenant_id request_id correlation_id key) c =
        after-elim (Effect s (op_create now task_id body tenant_id request_id correlation_id key) c)
          _ c unchanged
          λ a c' e.
            elim (create_task-Created h fs roots now task_id body tenant_id request_id
              correlation_id key c c' a.0 a.1 e).1 [
                | inl (same, _) ↦ subst (Effect s _ c) (sym same) unchanged
                | inr (unused, _, _, new) ↦ subst (Effect s _ c) (sym new) (added now _ unused refl)
              ]
    apply-Effect (op_plan now task_id tenant_id steps) c =
        after-elim (Effect s (op_plan now task_id tenant_id steps) c) _ c unchanged λ a c' e.
          let (m, _, _, new) = plan-Moved h now task_id tenant_id steps c c' a e in
          stored-Effect now task_id tenant_id c c' a _ _ leads-awaiting m new
    apply-Effect (op_approve now jti task_id tenant_id plan_hash approver server_id) c =
        after-elim (Effect s (op_approve now jti task_id tenant_id plan_hash approver server_id) c)
          _ c unchanged
          λ a c' e.
            let (m, _, new) =
              approve-Moved h s now jti task_id tenant_id plan_hash approver server_id c c' a.0 a.1
                e in
            stored-Effect now task_id tenant_id c c' a.0 _ _ leads-approved m new
    apply-Effect (op_cancel now task_id tenant_id) c =
        after-elim (Effect s (op_cancel now task_id tenant_id) c) _ c unchanged λ a c' e.
          let (m, _, new) = cancel-Moved h now task_id tenant_id c c' a e in
          stored-Effect now task_id tenant_id c c' a _ _ leads-cancelled m new
    apply-Effect (op_execute now execution_id q) c =
        after-elim (Effect s (op_execute now execution_id q) c) _ c unchanged
          λ a c' e. execute-Effect (op_execute now execution_id q) now execution_id q c c' a e
    apply-Effect (op_register r) c =
        after-elim (Effect s (op_register r) c) _ c unchanged
          λ a c' e. register_agent-Effect r c c' a e
    apply-Effect (op_verification code execution_id tenant_id) c =
        after-elim (Effect s (op_verification code execution_id tenant_id) c) _ c unchanged
          λ a c' e. verification-Effect code execution_id tenant_id c c' a e

    -- What every effect keeps holds after any calls.
    pub run-keeps {ℓ} :
        (P : Controller → Type ℓ)
        → ((op : Op) (c c' : Controller) → P c → Effect s op c c' → P c')
        → (ops : List Op) (c : Controller) → P c
        → P (run ops c)
    unfolding run
    run-keeps P keeps [] c p = p
    run-keeps P keeps (op ∷ ops) c p =
        run-keeps P keeps ops (apply op c) (keeps op c (apply op c) p (apply-Effect op c))
