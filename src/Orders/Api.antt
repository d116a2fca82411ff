-- ===== src/Orders/Api.antt =====
-- The routes of app/api/v1/orders.py that change an order. A record of the store is changed in place,
-- so that what a route did before it raises stays: each route gives its answer and the store. The
-- dumps of the request bodies, SHA-256 and HMAC are the operations of `Wire`.
use codestra_middleware.Base.{
  ℕ, not, ◌&&◌, ◌||◌, Option, none, some, String, ok, err, ◌>>=◌, ◌>>◌, raise_if, string_eq, ◌==◌,
  insert, ⊤,
}
use codestra_middleware.Raised.{Outcome, http_exception}
use codestra_middleware.Json.{Value, text, object, end, field}
use codestra_middleware.Text.{is_empty, joined}
use codestra_middleware.Orders.{
  OrderStatus, approved, rejected, dispatched_to_n8n, OrderEnvelope, Content, content, Settings,
  validate_for_dispatch,
}
use codestra_middleware.Orders.Records.{OrderRecord, Command, OrderStore, get, command}

pub record Wire : Type 0 where
  pub digest : Value → String
  pub mac : String → String → String
  pub isoformat : ℕ → String
  pub dump : OrderEnvelope → Value

-- `X-Timestamp`, `X-Nonce`, `X-Signature` and `X-Body-Sha256`.
pub record Headers : Type 0 where
  pub timestamp : Option String
  pub nonce : Option String
  pub signature : Option String
  pub body_hash : Option String

abbrev pub given : Option String → String
given none = ""
given (some s) = s

-- The text that is signed.
abbrev pub signed_text : Headers → String → String
signed_text headers computed_hash =
    joined "." (given headers.timestamp) (joined "." (given headers.nonce) computed_hash)

-- `verify_body_integrity`, on the dump of the body.
unfoldable pub verify_body_integrity : Wire → String → Value → Headers → Outcome ⊤
verify_body_integrity wire secret body headers = do
  raise_if
      (is_empty (given headers.timestamp)
        || is_empty (given headers.nonce)
        || is_empty (given headers.signature)
        || is_empty (given headers.body_hash))
      (http_exception 401 "timestamp, nonce, signature, and body hash are required")
  raise_if (not (wire.digest body == given headers.body_hash))
      (http_exception 401 "body hash mismatch")
  raise_if
      (not (is_empty secret)
        && not
            (wire.mac secret (signed_text headers (wire.digest body)) == given headers.signature))
      (http_exception 401 "signature invalid")

-- `self.orders[order_id]` after it has changed.
abbrev pub set_order : String → OrderRecord → OrderStore → OrderStore
set_order order_id r s = record s { orders = insert order_id r s.orders }

abbrev pub set_command : String → Command → OrderStore → OrderStore
set_command command_id c s = record s { commands = insert command_id c s.commands }

-- What a route answers, and the store that it leaves.
abbrev pub Response {ℓ} : Type ℓ → Type ℓ
Response A = Outcome A × OrderStore

-- A route that raises before it changes anything, or goes on.
abbrev pub first {ℓ κ} :
    {A : Type ℓ} {B : Type κ} → Outcome A → OrderStore → (A → Response B) → Response B
first (ok a) s k = k a
first (err e) s k = (err e, s)

pub record ApprovalRequest : Type 0 where
  pub approved_by : String
  pub content_hash : String

abbrev pub approved_record : String → ℕ → OrderRecord → OrderRecord
approved_record approver now r = record r {
  envelope = record r.envelope {
    approval = record r.envelope.approval {
      status = "approved";
      approved_by = some approver;
      approved_at = some now;
    };
  };
  status = approved;
}

module _ (wire : Wire) (secret : String) (hash : Content → String) where
  abbrev pub check_approval :
      Value → Headers → String → ApprovalRequest → OrderStore → Outcome OrderRecord
  check_approval body headers order_id approval s = do
    verify_body_integrity wire secret body headers
    r ← get order_id s
    raise_if (not (approval.content_hash == r.content_hash))
        (http_exception 409 "approval content hash does not match order")
    raise_if (approval.approved_by == r.envelope.source_system)
        (http_exception 403 "self approval is not permitted")
    ok r

  unfoldable pub approve_order :
      ℕ → Value → Headers → String → ApprovalRequest → OrderStore → Response OrderRecord
  approve_order now body headers order_id approval s =
      first (check_approval body headers order_id approval s) s λ r.
        let done = approved_record approval.approved_by now r in
        (ok done, set_order order_id done s)

  abbrev pub check_known : Value → Headers → String → OrderStore → Outcome OrderRecord
  check_known body headers order_id s = do
    verify_body_integrity wire secret body headers
    get order_id s

  unfoldable pub reject_order : Headers → String → OrderStore → Response OrderRecord
  reject_order headers order_id s = first (check_known (object end) headers order_id s) s λ r.
      let done : OrderRecord = record r { status = rejected } in
      (ok done, set_order order_id done s)

  abbrev pub check_dispatch :
      Settings → ℕ → Headers → OrderEnvelope → OrderStore → Outcome OrderRecord
  check_dispatch settings now headers o s = do
    verify_body_integrity wire secret (wire.dump o) headers
    r ← get o.order_id s
    validate_for_dispatch hash settings now o
    raise_if (not (r.content_hash == hash (content o)))
        (http_exception 409 "order content changed after intake")
    ok r

  -- The record of an order that is on its way to n8n.
  abbrev pub dispatched_record : ℕ → OrderEnvelope → OrderRecord → OrderRecord
  dispatched_record now o r = record r {
    status = dispatched_to_n8n;
    extra =
        insert "n8n_dispatch"
          (object (
            field "workflow_code" (text o.workflow_code)
              (field "accepted_at" (text (wire.isoformat now)) end)))
          r.extra;
  }

  -- The command of a dispatched order.
  abbrev pub start_command : OrderStore → Outcome (Command × OrderStore) → Response OrderStatus
  start_command marked (ok (c, s)) =
      (ok dispatched_to_n8n, set_command c.command_id (record c { status = dispatched_to_n8n }) s)
  start_command marked (err e) = (err e, marked)

  unfoldable pub dispatch_order :
      Settings → ℕ → Headers → OrderEnvelope → OrderStore → Response OrderStatus
  dispatch_order settings now headers o s = first (check_dispatch settings now headers o s) s λ r.
      let marked = set_order o.order_id (dispatched_record now o r) s in
      start_command marked (command o.command_id o.order_id marked)
