-- ===== src/Controller/Registry.antt =====
-- `register_agent` and `verification` of app/core/controller.py.
use codestra_middleware.Base.{
  not, Option, none, some, String, ok, ◌>>=◌, ◌>>◌, raise_if, or_raise, string_eq, ◌==◌, lookup,
  insert, ⊤,
}
use codestra_middleware.Raised.{Outcome, controller_error}
use codestra_middleware.Controller.Servers.{
  Registration, AgentRecord, Verification, checked_agent, pending_checks,
}
use codestra_middleware.Controller.Tokens.{Signer}
use codestra_middleware.Controller.Tasks.{Hashes, Controller}

-- A server that is registered already must be registered the same way.
abbrev pub same_registration : AgentRecord → Option AgentRecord → Outcome ⊤
same_registration new none = ok tt
same_registration new (some prior) =
    raise_if (not (prior.registration_hash == new.registration_hash))
      (controller_error "agent registration conflict")

module _ (h : Hashes) where
  unfoldable pub register_agent : Registration → Controller → Outcome (AgentRecord × Controller)
  register_agent r c = do
    new ← checked_agent h.of_registration r
    same_registration new (lookup r.server_id c.agents)
    ok (new, record c { agents = insert r.server_id new c.agents })

  -- The record of a verification and its signature; `verification_code` is the fresh code.
  unfoldable pub verification :
      Signer
      → String
      → String
      → String
      → Controller
      → Outcome ((Verification × String) × Controller)
  verification s verification_code execution_id tenant_id c = do
    execution ← or_raise (lookup execution_id c.executions) (controller_error "execution not found")
    raise_if (not (execution.envelope.tenant_id == tenant_id))
        (controller_error "execution not found")
    let opened : Verification = record {
      verification_code = verification_code;
      execution_id = execution_id;
      task_id = execution.envelope.task_id;
      tenant_id = tenant_id;
      checks = pending_checks;
      evidence_hash = execution.evidence_hash;
    }
    let signature = s.sign (h.canonical_verification opened)
    ok (
      (opened, signature),
      record c { verifications = insert verification_code (opened, signature) c.verifications },
    )
