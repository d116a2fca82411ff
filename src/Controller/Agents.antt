-- ===== src/Controller/Agents.antt =====
-- How a private agent admits a request (app/agent/security.py). The certificate of the peer is read by
-- the operations of `Certificates` (the `cryptography` package and SHA-256).
use codestra_middleware.Base.{
  ℕ, ◌+◌, ◌≤◌, ◌<◌, ◌≡◌, refl, ◌∙◌, true, not, Option, none, some, List, String, ok, err, ◌>>=◌,
  ◌>>◌, raise_if, or_raise, contains, string_eq, >>=-elim, ap, arith,
}
use codestra_middleware.Raised.{Outcome, http_exception, controller_error, as_http, as_http-eq-ok}
use codestra_middleware.Controller.Tokens.{
  Claims, Signer, ApprovalTokens, new_tokens, Demand, check, verify,
}
use codestra_middleware.Controller.Replay.{verify-parts, verify_sound}

pub record Certificates : Type 0 where
  -- The URIs of the subject alternative name, if the bytes are a certificate that has one.
  pub uris : String → Option (List String)
  pub fingerprint : String → String

abbrev pub controller_spiffe : String
controller_spiffe = "spiffe://codestra.internal/controller/middleware"

-- `certificate_identity`, on the DER bytes that the TLS adapter puts into the scope.
unfoldable pub certificate_identity : Certificates → Option String → Outcome (String × String)
certificate_identity x peer = do
  der ← or_raise peer (http_exception 401 "verified client certificate required")
  spiffe_ids ←
      or_raise (x.uris der) (http_exception 401 "verified client certificate identity invalid")
  raise_if (not (contains controller_spiffe spiffe_ids))
      (http_exception 403 "controller identity denied")
  ok (controller_spiffe, x.fingerprint der)

-- `except ControllerError` of `approval_tokens`.
abbrev unavailable : Outcome ApprovalTokens → Outcome ApprovalTokens
unavailable (err (controller_error m)) = err (http_exception 503 "approval verifier unavailable")
unavailable r = r

-- `approval_tokens`, on the length of the key file, if it can be read: the tokens are made anew for
-- every request.
unfoldable pub approval_tokens : Option ℕ → Outcome ApprovalTokens
approval_tokens none = err (http_exception 503 "approval verifier unavailable")
approval_tokens (some size) = unavailable (new_tokens size 300)

module _ (s : Signer) (x : Certificates) where
  -- `authorize_agent_request`: the claims, with the identity and the fingerprint of the peer.
  unfoldable pub authorize_agent_request :
      ℕ
      → Option ℕ
      → Option String
      → String
      → String
      → String
      → String
      → String
      → Outcome (Claims × (String × String))
  authorize_agent_request now key_size peer token task_id tenant_id workspace tool = do
    identity ← certificate_identity x peer
    tokens ← approval_tokens key_size
    verified ← as_http 401 (
        verify s tokens token
          (record {
            task_id = task_id;
            tenant_id = tenant_id;
            server_id = "middleware";
            workspace = workspace;
            tool = tool;
          })
          true now)
    ok (verified.0, identity)

  check-later :
      (c : Claims) (d : Demand) (now later : ℕ)
      → now ≤ later
      → later < c.exp
      → check s c d now ≡ ok tt
      → check s c d later ≡ ok tt
  unfolding check
  check-later c d now later after alive e = ground arith

  verify-later :
      (tokens : ApprovalTokens) (token : String) (d : Demand) (now later : ℕ) (claims : Claims)
      (left : ApprovalTokens)
      → now ≤ later
      → later < claims.exp
      → verify s tokens token d true now ≡ ok (claims, left)
      → verify s tokens token d true later ≡ ok (claims, left)
  unfolding verify
  verify-later tokens token d now later claims left after alive e =
      let (was_read, checked, used) = verify-parts s tokens token d true now claims left e in
      rw was_read (rw (check-later claims d now later after alive checked) (rw used refl))

  -- A request that an agent admits comes over TLS from a certificate of the controller, with a live
  -- token for this task, tenant, workspace and tool on the server "middleware".
  pub authorize_sound :
      (now : ℕ) (key_size : Option ℕ) (peer : Option String)
      (token task_id tenant_id workspace tool : String) (claims : Claims) (id : String × String)
      → authorize_agent_request now key_size peer token task_id tenant_id workspace tool
        ≡ ok (claims, id)
      → (certificate_identity x peer ≡ ok id)
        × (claims.iat ≤ now + 5)
        × (now < claims.exp)
        × (claims.task_id ≡ some task_id)
        × (claims.tenant_id ≡ some tenant_id)
        × (claims.server_id ≡ some "middleware")
        × (claims.workspace ≡ some workspace)
        × (contains tool claims.tools ≡ true)
  unfolding authorize_agent_request
  authorize_sound now key_size peer token task_id tenant_id workspace tool claims id e =
      >>=-elim (certificate_identity x peer) _ e λ who known e₁.
        >>=-elim (approval_tokens key_size) _ e₁ λ tokens made e₂.
          >>=-elim (as_http 401 (verify s tokens token _ true now)) _ e₂ λ v accepted e₃.
            let (iat, exp, task, tenant, server, place, named, _, _) =
              verify_sound s tokens token _ now v.0 v.1 (as_http-eq-ok 401 _ accepted) in
            let same : v.0 ≡ claims = cc e₃ in
            let who_same : who ≡ id = cc e₃ in
            (
              known ∙ ap ok who_same,
              rw (← same) iat,
              rw (← same) exp,
              rw (← same) task,
              rw (← same) tenant,
              rw (← same) server,
              rw (← same) place,
              rw (← same) named,
            )

  -- The agents have no replay protection: a request that was admitted once is admitted again, with
  -- the same token, at every later instant before the token expires.
  pub authorize_again :
      (now later : ℕ) (key_size : Option ℕ) (peer : Option String)
      (token task_id tenant_id workspace tool : String) (claims : Claims) (id : String × String)
      → now ≤ later
      → later < claims.exp
      → authorize_agent_request now key_size peer token task_id tenant_id workspace tool
        ≡ ok (claims, id)
      → authorize_agent_request later key_size peer token task_id tenant_id workspace tool
        ≡ ok (claims, id)
  unfolding authorize_agent_request
  authorize_again now later key_size peer token task_id tenant_id workspace tool claims id after
        alive e =
      >>=-elim (certificate_identity x peer) _ e λ who known e₁.
        >>=-elim (approval_tokens key_size) _ e₁ λ tokens made e₂.
          >>=-elim (as_http 401 (verify s tokens token _ true now)) _ e₂ λ v accepted e₃.
            let same : v.0 ≡ claims = cc e₃ in
            let again =
              verify-later tokens token _ now later v.0 v.1 after (rw same alive)
                (as_http-eq-ok 401 _ accepted) in
            rw known (rw made (rw again e₃))
