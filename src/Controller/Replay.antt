-- ===== src/Controller/Replay.antt =====
-- What an approval token is good for (`ApprovalTokens` of app/core/controller.py).
use codestra_middleware.Base.{
  ℕ, ◌+◌, ◌≤◌, ◌<◌, ◌≡◌, ◌≢◌, sym, ap, eq-of_==, true≢false, ◌∙◌, Bool, true, false, Option, none,
  some, [], ◌∷◌, String, ok, if◌then◌else◌, arith, contains, string_eq, ==_refl, >>=-eq-ok,
  >>=-elim, raise_if-elim, or_raise, not, ◌==◌,
}
use codestra_middleware.Raised.{Raised}
use codestra_middleware.Text.{split_once, split_once-joined, is_empty}
use codestra_middleware.Controller.Tokens.{
  Claims, Signer, IsFaithful, ApprovalTokens, new_tokens, Grant, Demand, matches, in_scope,
  grant_claims, issue, read, check, use_up, verify,
}

-- The lifetime of a token is between half a minute and ten minutes, whatever is configured.
pub new_tokens_bounds :
    (secret_size ttl : ℕ) {tokens : ApprovalTokens}
    → new_tokens secret_size ttl ≡ ok tokens
    → (32 ≤ secret_size)
      × (30 ≤ tokens.ttl_seconds)
      × (tokens.ttl_seconds ≤ 600)
      × (tokens.consumed ≡ [])
unfolding new_tokens
new_tokens_bounds secret_size ttl h = ground arith

or_raise-some : {A : Type 0} (o : Option A) (e : Raised) (a : A) → or_raise o e ≡ ok a → o ≡ some a
or_raise-some none e a h = cc
or_raise-some (some b) e a h = cc

matches_sound : (o : Option String) (t : String) → matches o t ≡ true → o ≡ some t
matches_sound none t h = cc
matches_sound (some u) t h = ap some (eq-of_== u t h)

in_scope_sound :
    (c : Claims) (d : Demand)
    → in_scope c d ≡ true
    → (c.task_id ≡ some d.task_id)
      × (c.tenant_id ≡ some d.tenant_id)
      × (c.server_id ≡ some d.server_id)
      × (c.workspace ≡ some d.workspace)
unfolding in_scope
in_scope_sound c d h = ground (
  arith,
  matches_sound c.task_id d.task_id,
  matches_sound c.tenant_id d.tenant_id,
  matches_sound c.server_id d.server_id,
  matches_sound c.workspace d.workspace,
)

module _ (s : Signer) where
  read-issue :
      IsFaithful s
      → (tokens : ApprovalTokens) (g : Grant) (now : ℕ) (jti : String)
      → read s (issue s tokens g now jti) ≡ ok (grant_claims s tokens g now jti)
  unfolding read issue
  read-issue f tokens g now jti =
      let c = grant_claims s tokens g now jti in
      rw (split_once-joined "." (s.encode c) (s.sign (s.encode c)) (f.no_dot c))
        (rw (==_refl (s.sign (s.encode c)), f.decode-encode c))

  abbrev pub demand : Grant → String → Demand
  demand g tool = record {
    task_id = g.task_id;
    tenant_id = g.tenant_id;
    server_id = g.server_id;
    workspace = g.workspace;
    tool = tool;
  }

  check-grant :
      (tokens : ApprovalTokens) (g : Grant) (issued now : ℕ) (jti tool : String)
      → issued ≤ now
      → now < issued + tokens.ttl_seconds
      → contains tool g.tools ≡ true
      → check s (grant_claims s tokens g issued jti) (demand g tool) now ≡ ok tt
  unfolding check in_scope grant_claims
  check-grant tokens g issued now jti tool lo hi t =
      ground
        (arith, ==_refl g.task_id, ==_refl g.tenant_id, ==_refl g.server_id, ==_refl g.workspace)

  use_up-fresh :
      (tokens : ApprovalTokens) (c : Claims)
      → is_empty c.jti ≡ false
      → contains c.jti tokens.consumed ≡ false
      → use_up s tokens c ≡ ok (record tokens { consumed = c.jti ∷ tokens.consumed })
  unfolding use_up
  use_up-fresh tokens c e f = rw (e, f)

  pub check_sound :
      (c : Claims) (d : Demand) (now : ℕ)
      → check s c d now ≡ ok tt
      → (c.iat ≤ now + 5) × (now < c.exp) × (in_scope c d ≡ true) × (contains d.tool c.tools ≡ true)
  unfolding check
  check_sound c d now h = ground arith

  use_up_sound :
      (tokens : ApprovalTokens) (c : Claims) (left : ApprovalTokens)
      → use_up s tokens c ≡ ok left
      → (contains c.jti tokens.consumed ≡ false) × (left.consumed ≡ c.jti ∷ tokens.consumed)
  unfolding use_up
  use_up_sound tokens c left h = ground arith

  -- A token that was issued for a task, a tenant, a server and a workspace is accepted there for each
  -- of its tools while it lives, and is then used up.
  pub verify-issue :
      IsFaithful s
      → (tokens later : ApprovalTokens) (g : Grant) (issued now : ℕ) (jti tool : String)
      → issued ≤ now
      → now < issued + tokens.ttl_seconds
      → contains tool g.tools ≡ true
      → is_empty jti ≡ false
      → contains jti later.consumed ≡ false
      → verify s later (issue s tokens g issued jti) (demand g tool) true now
        ≡ ok (grant_claims s tokens g issued jti, record later { consumed = jti ∷ later.consumed })
  unfolding verify grant_claims
  verify-issue f tokens later g issued now jti tool lo hi t e c =
      rw (read-issue f tokens g issued jti) (
        rw (check-grant tokens g issued now jti tool lo hi t)
          (rw (use_up-fresh later (grant_claims s tokens g issued jti) e c)))

  pub verify-parts :
      (tokens : ApprovalTokens) (token : String) (d : Demand) (consume : Bool) (now : ℕ)
      (claims : Claims) (left : ApprovalTokens)
      → verify s tokens token d consume now ≡ ok (claims, left)
      → (read s token ≡ ok claims)
        × (check s claims d now ≡ ok tt)
        × ((if consume then use_up s tokens claims else ok tokens) ≡ ok left)
  unfolding verify
  verify-parts tokens token d consume now claims left h =
      let (c, was_read, h₁) = >>=-eq-ok (read s token) _ h in
      let (u, checked, h₂) = >>=-eq-ok (check s c d now) _ h₁ in
      let (l, used, h₃) = >>=-eq-ok (if consume then use_up s tokens c else ok tokens) _ h₂ in
      let same : c ≡ claims = cc h₃ in
      let same_left : l ≡ left = cc h₃ in
      (was_read ∙ ap ok same, rw (← same) checked, rw (← same) used ∙ ap ok same_left)

  -- A token that is accepted is in its time, for the scope and the tool that the call names, and
  -- leaves nothing consumed that was not, but its own identifier.
  pub verify_sound :
      (tokens : ApprovalTokens) (token : String) (d : Demand) (now : ℕ) (claims : Claims)
      (left : ApprovalTokens)
      → verify s tokens token d true now ≡ ok (claims, left)
      → (claims.iat ≤ now + 5)
        × (now < claims.exp)
        × (claims.task_id ≡ some d.task_id)
        × (claims.tenant_id ≡ some d.tenant_id)
        × (claims.server_id ≡ some d.server_id)
        × (claims.workspace ≡ some d.workspace)
        × (contains d.tool claims.tools ≡ true)
        × (contains claims.jti tokens.consumed ≡ false)
        × (left.consumed ≡ claims.jti ∷ tokens.consumed)
  verify_sound tokens token d now claims left h =
      let (_, checked, used) = verify-parts tokens token d true now claims left h in
      let (iat, exp, scoped, tool) = check_sound claims d now checked in
      let (task, tenant, server, workspace) = in_scope_sound claims d scoped in
      let (fresh, consumed) = use_up_sound tokens claims left used in
      (iat, exp, task, tenant, server, workspace, tool, fresh, consumed)

  -- The token carries the claims, under a signature of the controller.
  abbrev pub IsSigned : String → Claims → Type 0
  IsSigned token claims =
      (encoded : String) × (split_once "." token ≡ some (encoded, s.sign encoded))
      × (s.decode encoded ≡ some claims)

  read-IsSigned :
      (token : String) (claims : Claims) → read s token ≡ ok claims → IsSigned token claims
  unfolding read
  read-IsSigned token claims h = >>=-elim (or_raise (split_once "." token) _) _ h λ parts split h₁.
      raise_if-elim (not (parts.1 == s.sign parts.0)) _ _ h₁ λ signed h₂.
        let same : parts.1 ≡ s.sign parts.0 = eq-of_== parts.1 (s.sign parts.0) (ground arith) in
        (
          parts.0,
          or_raise-some _ _ _ split ∙ ap (λ x. some (parts.0, x)) same,
          or_raise-some _ _ _ h₂,
        )

  -- The claims of a call that is accepted are those that its token carries.
  pub verify-IsSigned :
      (tokens : ApprovalTokens) (token : String) (d : Demand) (now : ℕ) (claims : Claims)
      (left : ApprovalTokens)
      → verify s tokens token d true now ≡ ok (claims, left)
      → IsSigned token claims
  verify-IsSigned tokens token d now claims left h =
      read-IsSigned token claims (verify-parts tokens token d true now claims left h).0

  -- Two calls that are to consume one token cannot both be accepted, whatever else is consumed in
  -- between: the identifier that the first has used up is refused for ever.
  pub verify_once :
      (tokens left later : ApprovalTokens) (token : String) (d e : Demand) (now after : ℕ)
      (claims : Claims)
      → verify s tokens token d true now ≡ ok (claims, left)
      → ((j : String) → contains j left.consumed ≡ true → contains j later.consumed ≡ true)
      → (r : Claims × ApprovalTokens) → verify s later token e true after ≢ ok r
  verify_once tokens left later token d e now after claims first grows (claims', left') second =
      let (was_read, _, used) = verify-parts tokens token d true now claims left first in
      let (was_read', _, used') = verify-parts later token e true after claims' left' second in
      let same : ok claims ≡ ok claims' = sym was_read ∙ was_read' in
      let (_, consumed) = use_up_sound tokens claims left used in
      let (fresh, _) = use_up_sound later claims' left' used' in
      let same_jti : claims.jti ≡ claims'.jti = cc same in
      let recorded : contains claims.jti left.consumed ≡ true =
        rw consumed (rw (==_refl claims.jti)) in
      true≢false (sym (grows claims.jti recorded) ∙ rw same_jti fresh)
