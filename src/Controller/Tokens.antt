-- ===== src/Controller/Tokens.antt =====
-- `ApprovalTokens` of app/core/controller.py. The HMAC under the signing key and the encoding of
-- the claims (canonical JSON in base64) are the operations of a `Signer`; instants are in seconds.
use codestra_middleware.Base.{
  ℕ, ◌+◌, min, max, ◌≡◌, Bool, false, not, ◌&&◌, ◌||◌, Option, none, some, List, [], ◌∷◌, String,
  ok, ◌>>=◌, ◌>>◌, raise_if, or_raise, if◌then◌else◌, contains, string_eq, ◌==◌, ltb, leb, ⊤,
}
use codestra_middleware.Raised.{Outcome, controller_error}
use codestra_middleware.Text.{split_once, joined, has_char, is_empty}

-- The claims of a token. A scope that the token lacks is `none`; a missing list, time or identifier
-- reads as empty or 0.
pub record Claims : Type 0 where
  pub task_id : Option String
  pub tenant_id : Option String
  pub server_id : Option String
  pub workspace : Option String
  pub tools : List String
  pub plan_hash : String
  pub approver_hash : String
  pub iat : ℕ
  pub exp : ℕ
  pub jti : String

pub record Signer : Type 0 where
  pub sign : String → String
  pub encode : Claims → String
  pub decode : String → Option Claims

-- What the encoding promises: it can be read back, and base64 has no dot.
pub record IsFaithful (s : Signer) : Type 0 where
  pub decode-encode : (c : Claims) → s.decode (s.encode c) ≡ some c
  pub no_dot : (c : Claims) → has_char "." (s.encode c) ≡ false

pub record ApprovalTokens : Type 0 where
  pub ttl_seconds : ℕ
  pub consumed : List String

-- The constructor, on the length of the secret.
unfoldable pub new_tokens : ℕ → ℕ → Outcome ApprovalTokens
new_tokens secret_size ttl_seconds = do
  raise_if (ltb secret_size 32) (controller_error "approval signing key is unavailable")
  ok (record { ttl_seconds = min (max ttl_seconds 30) 600; consumed = [] })

-- What a token is issued for, and what it is later verified against.
pub record Grant : Type 0 where
  pub task_id : String
  pub tenant_id : String
  pub server_id : String
  pub workspace : String
  pub tools : List String
  pub plan_hash : String
  pub approver_hash : String

pub record Demand : Type 0 where
  pub task_id : String
  pub tenant_id : String
  pub server_id : String
  pub workspace : String
  pub tool : String

abbrev pub matches : Option String → String → Bool
matches none s = false
matches (some t) s = t == s

-- The scope claims are the ones that the call expects.
unfoldable pub in_scope : Claims → Demand → Bool
in_scope c d =
    matches c.task_id d.task_id
    && matches c.tenant_id d.tenant_id
    && matches c.server_id d.server_id
    && matches c.workspace d.workspace

module _ (s : Signer) where
  unfoldable pub grant_claims : ApprovalTokens → Grant → ℕ → String → Claims
  grant_claims tokens g now jti = record {
    task_id = some g.task_id;
    tenant_id = some g.tenant_id;
    server_id = some g.server_id;
    workspace = some g.workspace;
    tools = g.tools;
    plan_hash = g.plan_hash;
    approver_hash = g.approver_hash;
    iat = now;
    exp = now + tokens.ttl_seconds;
    jti = jti;
  }

  -- `issue`; `jti` is the fresh identifier that it draws.
  unfoldable pub issue : ApprovalTokens → Grant → ℕ → String → String
  issue tokens g now jti =
      let encoded = s.encode (grant_claims tokens g now jti) in joined "." encoded (s.sign encoded)

  -- The claims of a token whose signature is good.
  unfoldable pub read : String → Outcome Claims
  read token = do
    parts ← or_raise (split_once "." token) (controller_error "approval token invalid")
    raise_if (not (parts.1 == s.sign parts.0)) (controller_error "approval token invalid")
    or_raise (s.decode parts.0) (controller_error "approval token invalid")

  -- The checks of `verify` on time, scope and tool.
  unfoldable pub check : Claims → Demand → ℕ → Outcome ⊤
  check claims d now = do
    raise_if (ltb (now + 5) claims.iat || leb claims.exp now)
        (controller_error "approval token expired")
    raise_if (not (in_scope claims d)) (controller_error "approval token scope denied")
    raise_if (not (contains d.tool claims.tools))
        (controller_error "approval token tool scope denied")

  -- A token is consumed by its identifier, once.
  unfoldable pub use_up : ApprovalTokens → Claims → Outcome ApprovalTokens
  use_up tokens claims = do
    raise_if (is_empty claims.jti || contains claims.jti tokens.consumed)
        (controller_error "approval token replay rejected")
    ok (record tokens { consumed = claims.jti ∷ tokens.consumed })

  unfoldable pub verify :
      ApprovalTokens → String → Demand → Bool → ℕ → Outcome (Claims × ApprovalTokens)
  verify tokens token d consume now = do
    claims ← read token
    check claims d now
    left ← (if consume then use_up tokens claims else ok tokens)
    ok (claims, left)
