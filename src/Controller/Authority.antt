-- ===== src/Controller/Authority.antt =====
-- What an approval token can authorize over a run of the controller (app/core/controller.py).
use codestra_middleware.Base.{
  ℕ, ◌+◌, ◌<◌, ◌≤◌, ◌≡◌, ◌≢◌, sym, ap, subst, ◌∙◌, true, List, ◌∷◌, String, ok, contains, string_eq,
  arith, some,
}
use codestra_middleware.Controller.Screening.{redact}
use codestra_middleware.Controller.Tokens.{Claims, Signer, verify}
use codestra_middleware.Controller.Replay.{IsSigned, verify-IsSigned, verify_sound, verify_once}
use codestra_middleware.Controller.Tasks.{
  is_allowed_tool, TaskRecord, Execution, Hashes, Paths, Controller, validate_workspace, audit,
  find_task,
}
use codestra_middleware.Controller.Operations.{Call, demand_of, is_executable, execute}
use codestra_middleware.Controller.Outcomes.{execute-Authorized}
use codestra_middleware.Controller.Runs.{
  Op, Effect, unchanged, added, moved, ran, registered, opened, run, run-keeps,
}

-- The token identifier is in the controller's list of consumed ones.
abbrev IsConsumed : String → Controller → Type 0
IsConsumed jti c = contains jti c.tokens.consumed ≡ true

Effect-IsConsumed :
    (h : Hashes) (s : Signer) (jti : String) (op : Op) (c c' : Controller)
    → IsConsumed jti c
    → Effect h s op c c'
    → IsConsumed jti c'
unfolding audit
Effect-IsConsumed h s jti op c c' was unchanged = was
Effect-IsConsumed h s jti op c c' was (added now fresh _ _) = was
Effect-IsConsumed h s jti op c c' was (moved now task_id old new action details _ _ _ _ _ _) = was
Effect-IsConsumed h s jti op c c' was (registered r new _) = was
Effect-IsConsumed h s jti op c c' was (opened v) = was
Effect-IsConsumed h s jti op c c' was (ran now task_id token d task claims left x _ _ e) =
    let (_, _, _, _, _, _, _, _, consumed) = verify_sound s c.tokens token d now claims left e in
    rw consumed (ground arith)

module _ (h : Hashes) (s : Signer) (fs : Paths) (roots : List String) where
  run-IsConsumed :
      (jti : String) (ops : List Op) (c : Controller)
      → IsConsumed jti c
      → IsConsumed jti (run h s fs roots ops c)
  run-IsConsumed jti = run-keeps h s fs roots (IsConsumed jti) (Effect-IsConsumed h s jti)

  -- A token authorizes one execution at most: after a call of `execute` that has succeeded, no call
  -- with the same token succeeds, whatever it asks for, whenever it comes, and whatever calls came
  -- in between.
  pub execute_once :
      (now later : ℕ) (id id' : String) (q r : Call) (c c' : Controller) (x : Execution)
      (ops : List Op)
      → execute h s fs roots now id q c ≡ ok (x, c')
      → r.token ≡ q.token
      → (y : Execution × Controller)
      → execute h s fs roots later id' r (run h s fs roots ops c') ≢ ok y
  unfolding audit
  execute_once now later id id' q r c c' x ops first same (y, c'') second =
      let a = execute-Authorized h s fs roots now id q c c' x first in
      let b = execute-Authorized h s fs roots later id' r (run h s fs roots ops c') c'' y second in
      let left_same : c'.tokens ≡ a.left = ap (λ d. d.tokens) a.result in
      verify_once s c.tokens a.left (run h s fs roots ops c').tokens q.token _ _ now later a.claims
        a.verified
        (λ j was.
          run-IsConsumed j ops c' (subst (λ t. contains j t.consumed ≡ true) (sym left_same) was))
        (b.claims, b.left)
        (subst
          (λ t.
            verify s (run h s fs roots ops c').tokens t (demand_of r b.normalized) true later
            ≡ ok (b.claims, b.left))
          same b.verified)

  -- An execution that is authorized is of an allowed tool, in a workspace under the allowlist, for a
  -- task of the caller's tenant that has been approved. The claims that the token carries under
  -- the controller's signature are live,
  -- for that task, tenant, server and workspace, and name the tool, and the call consumes the token's
  -- identifier. The recorded arguments are redacted.
  pub execute_sound :
      (now : ℕ) (id : String) (q : Call) (c c' : Controller) (x : Execution)
      → execute h s fs roots now id q c ≡ ok (x, c')
      → (is_allowed_tool q.tool ≡ true)
        × (validate_workspace fs roots q.workspace ≡ ok x.envelope.workspace)
        × (x.envelope.arguments ≡ redact q.arguments)
        × ((task : TaskRecord) × (find_task q.task_id q.tenant_id c ≡ ok task)
            × (is_executable task.state ≡ true)
            × (x.envelope.plan_hash ≡ task.plan_hash))
        × ((claims : Claims) × (IsSigned s q.token claims)
            × (claims.iat ≤ now + 5)
            × (now < claims.exp)
            × (claims.task_id ≡ some q.task_id)
            × (claims.tenant_id ≡ some q.tenant_id)
            × (claims.server_id ≡ some q.server_id)
            × (claims.workspace ≡ some x.envelope.workspace)
            × (contains q.tool claims.tools ≡ true)
            × (c'.tokens.consumed ≡ claims.jti ∷ c.tokens.consumed))
  unfolding audit
  execute_sound now id q c c' x e =
      let a = execute-Authorized h s fs roots now id q c c' x e in
      let (iat, exp, task, tenant, server, workspace, tool, _, consumed) =
        verify_sound s c.tokens q.token _ now a.claims a.left a.verified in
      let inside : a.normalized ≡ x.envelope.workspace =
        sym (ap (λ y. y.envelope.workspace) a.execution) in
      (
        a.tool_allowed,
        a.in_workspace ∙ ap ok inside,
        ap (λ y. y.envelope.arguments) a.execution,
        (a.task, a.found, a.ready, ap (λ y. y.envelope.plan_hash) a.execution),
        (
          a.claims,
          verify-IsSigned s c.tokens q.token _ now a.claims a.left a.verified,
          iat,
          exp,
          task,
          tenant,
          server,
          workspace ∙ ap some inside,
          tool,
          ap (λ d. d.tokens.consumed) a.result ∙ consumed,
        ),
      )
