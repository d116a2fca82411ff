-- ===== src/Reliability.antt =====
-- app/core/reliability.py: retries of outbox items, the idempotency ledger, reconciliation, and the
-- gates before a contact or a transfer. SHA-256 of canonical JSON and the regular expressions of
-- `redact` are operations of `Texts`. Instants are in microseconds (Clock).
use Prim.Native.String.{◌++◌ as append}
use codestra_middleware.Base.{
  ℕ, ◌+◌, ◌-◌, ◌*◌, ◌^◌, min, ◌≡◌, Bool, true, false, not, ◌&&◌, ◌||◌, Option, none, some, List, [],
  ◌∷◌, String, ok, err, ◌>>=◌, ◌>>◌, raise_if, if◌then◌else◌, any, contains, select, string_eq,
  pair_eq, ◌==◌, Dict, lookup, insert, ltb, leb, ⊤,
}
use codestra_middleware.Raised.{Outcome, value_error, permission_error}
use codestra_middleware.Clock.{seconds, before}
use codestra_middleware.Json.{
  Value, null, boolean, number, text, array, object, Items, nil, cons, Fields, end, field,
}
use codestra_middleware.Text.{lower, has_part}
pub mod Backoff
pub mod Ledger
pub mod Gates
pub mod Tests

abbrev pub sensitive_parts : List String
sensitive_parts = "authorization" ∷ "cookie" ∷ "credential" ∷ "password" ∷ "secret" ∷ "token" ∷ []

-- `scrub` is the two substitutions of `redact` on a text.
pub record Texts : Type 0 where
  pub scrub : String → String
  pub sha256 : String → String
  pub canonical : Value → String

unfoldable pub is_sensitive : String → Bool
is_sensitive key = any (λ part. has_part part (lower key)) sensitive_parts

-- `redact`
module _ (t : Texts) where
  unfoldable mutual
    pub redact : Value → Value
    redact null = null
    redact (boolean b) = boolean b
    redact (number n) = number n
    redact (text s) = text (t.scrub s)
    redact (array xs) = array (redact_items xs)
    redact (object fs) = object (redact_fields fs)

    pub redact_items : Items → Items
    redact_items nil = nil
    redact_items (cons x xs) = cons (redact x) (redact_items xs)

    pub redact_fields : Fields → Fields
    redact_fields end = end
    redact_fields (field key v fs) =
        field key (if is_sensitive key then text "[REDACTED]" else redact v) (redact_fields fs)

-- `canonical_hash`
abbrev pub canonical_hash : Texts → Value → String
canonical_hash t payload = t.sha256 (t.canonical payload)

pub record RetryPolicy : Type 0 where
  pub max_attempts : ℕ
  pub base_seconds : ℕ
  pub max_seconds : ℕ

-- `RetryPolicy.delay`
unfoldable pub delay : RetryPolicy → ℕ → Outcome ℕ
delay p attempts = do
  raise_if (ltb attempts 1) (value_error "attempts must be positive")
  ok (min p.max_seconds (p.base_seconds * 2 ^ (attempts - 1)))

pub record OutboxItem : Type 0 where
  pub event_id : String
  pub topic : String
  pub payload : Value
  pub correlation_id : String
  pub status : String
  pub attempts : ℕ
  pub next_attempt_at : Option ℕ
  pub last_error : Option String

-- `OutboxItem.fail`
unfoldable pub fail : Texts → String → RetryPolicy → ℕ → OutboxItem → Outcome OutboxItem
fail t error p now item =
    let attempts = item.attempts + 1 in
    let failed_item : OutboxItem = record item {
      attempts = attempts;
      last_error = some (t.scrub error);
    } in
    let again = delay p attempts >>= λ wait.
    ok (record failed_item { status = "retry"; next_attempt_at = some (now + seconds wait) }) in
    if leb p.max_attempts attempts
    then ok (record failed_item { status = "dead_letter"; next_attempt_at = none })
    else again

-- The last comparison of `recover`.
abbrev pub is_stale : ℕ → ℕ → ℕ → Outcome Bool
is_stale now lock_timeout_seconds at =
    before now (seconds lock_timeout_seconds) >>= λ limit. ok (leb at limit)

unfoldable pub recover_at : ℕ → ℕ → OutboxItem → Option ℕ → Outcome OutboxItem
recover_at now lock_timeout_seconds item none = ok item
recover_at now lock_timeout_seconds item (some at) = do
  stale ← is_stale now lock_timeout_seconds at
  ok (if stale then record item { status = "retry"; next_attempt_at = some now } else item)

-- `OutboxItem.recover`
unfoldable pub recover : ℕ → ℕ → OutboxItem → Outcome OutboxItem
recover now lock_timeout_seconds item =
    let waiting = recover_at now lock_timeout_seconds item item.next_attempt_at in
    if item.status == "processing" then waiting else ok item

-- `OutboxItem.replay`
unfoldable pub replay : OutboxItem → Outcome OutboxItem
replay item = do
  raise_if (not (item.status == "dead_letter"))
      (value_error "only dead-letter items may be replayed")
  ok (record item { status = "pending"; attempts = 0; next_attempt_at = none; last_error = none })

abbrev pub Entries : Type 0
Entries = Dict (String × String) (String × String)

-- `f"{scope}\0{raw_key}"` under SHA-256
abbrev pub key_hash : Texts → String → String → String
key_hash t scope raw_key = t.sha256 (append scope (append "\0" raw_key))

unfoldable pub register_as :
    String × String → String × String → Entries → Option (String × String) → String × Entries
register_as key entry entries none = ("created", insert key entry entries)
register_as key entry entries (some existing) =
    (if existing == entry then "replay" else "conflict", entries)

-- `IdempotencyLedger.register`
unfoldable pub register : Texts → String → String → Value → String → Entries → String × Entries
register t scope raw_key payload event_id entries =
    let key : String × String = (scope, key_hash t scope raw_key) in
    register_as key (canonical_hash t (redact t payload), event_id) entries (lookup key entries)

pub record Reconciliation : Type 0 where
  pub missing : List String
  pub unexpected : List String

-- `Reconciler.reconcile`: the differences of two sets, and the new checkpoint.
unfoldable pub reconcile : List String → List String → String → Reconciliation × Option String
reconcile authoritative observed cursor = (
  record {
    missing = select (λ x. not (contains x observed)) authoritative;
    unexpected = select (λ x. not (contains x authoritative)) observed;
  },
  some cursor,
)

-- `enforce_dnc`, on the truth value of `do_not_call` and the text of `consent`.
unfoldable pub enforce_dnc : Bool → String → Outcome ⊤
enforce_dnc do_not_call consent =
    raise_if (do_not_call || contains (lower consent) ("revoked" ∷ "denied" ∷ []))
      (permission_error "do-not-call policy denies contact")

unfoldable pub authorize_transfer : Bool → Bool → String → String → Bool → Bool × String
authorize_transfer dnc authenticated role campaign_id live_enabled =
    if dnc
    then (false, "do-not-call")
    else if not authenticated
    then (false, "authentication-required")
    else if not (contains role ("supervisor" ∷ "manager" ∷ []))
    then (false, "role-denied")
    else if not (campaign_id == "TEST_SYN")
    then (false, "campaign-denied")
    else if not live_enabled
    then (false, "live-transfer-disabled")
    else (true, "authorized")
