-- ===== src/Orders/Records.antt =====
-- `OrderStore` of app/order_orchestration.py. The Prometheus counters that `_count` also moves are
-- left out.
use codestra_middleware.Base.{
  ℕ, ◌+◌, Bool, true, false, not, ◌&&◌, Option, none, some, List, [], ◌∷◌, ◌++◌, String, ok, ◌>>=◌,
  ◌>>◌, raise_if, or_raise, if◌then◌else◌, contains, string_eq, ◌==◌, Dict, lookup, lookup_or,
  insert, ltb,
}
use codestra_middleware.Raised.{Outcome, http_exception, key_error}
use codestra_middleware.Json.{Value, text, boolean}
use codestra_middleware.Text.{is_empty}
use codestra_middleware.Orders.{
  OrderStatus, approval_required, validated, queued, completed, partially_completed,
  failed_retryable, retry_scheduled, failed_final, dead_letter, OrderEnvelope, Content, content,
}

-- `extra` holds the keys that the routes add to a record later.
pub record OrderRecord : Type 0 where
  pub order_id : String
  pub command_id : String
  pub workflow_code : String
  pub status : OrderStatus
  pub content_hash : String
  pub trace_id : String
  pub correlation_id : String
  pub envelope : OrderEnvelope
  pub duplicate : Bool
  pub extra : Dict String Value

pub record Command : Type 0 where
  pub command_id : String
  pub order_id : String
  pub workflow_code : String
  pub status : OrderStatus
  pub progress : List Value
  pub attempts : ℕ

pub record AuditEvent : Type 0 where
  pub order_id : String
  pub event : String
  pub details : Dict String Value

pub record OrderStore : Type 0 where
  pub orders : Dict String OrderRecord
  pub by_idempotency : Dict String String
  pub commands : Dict String Command
  pub audit_events : List AuditEvent
  pub metrics : Dict String ℕ

-- `_count`
abbrev pub count : String → OrderStore → OrderStore
count name s = record s { metrics = insert name (lookup_or name 0 s.metrics + 1) s.metrics }

-- `_audit`
abbrev pub audit : String → String → Dict String Value → OrderStore → OrderStore
audit order_id event details s = record s {
  audit_events =
      s.audit_events ++ record { order_id = order_id; event = event; details = details } ∷ [];
}

-- `get`
unfoldable pub get : String → OrderStore → Outcome OrderRecord
get order_id s = or_raise (lookup order_id s.orders) (http_exception 404 "order not found")

abbrev pub truthy : Option String → Option String
truthy none = none
truthy (some s) = if is_empty s then none else some s

module _ (hash : Content → String) where
  abbrev pub new_order : OrderEnvelope → OrderRecord
  new_order o = record {
    order_id = o.order_id;
    command_id = o.command_id;
    workflow_code = o.workflow_code;
    status = if o.approval.required then approval_required else validated;
    content_hash = hash (content o);
    trace_id = o.trace_id;
    correlation_id = o.correlation_id;
    envelope = o;
    duplicate = false;
    extra = [];
  }

  abbrev pub add_order : OrderEnvelope → OrderStore → OrderStore
  add_order o s = audit o.order_id "order_received" (("trace_id", text o.trace_id) ∷ []) (
      count
        (if o.approval.status == "approved"
          then "orders_approved_total"
          else "orders_validated_total")
        (count "orders_received_total" (record s {
          orders = insert o.order_id (new_order o) s.orders;
          by_idempotency = insert o.idempotency_key o.order_id s.by_idempotency;
        })))

  unfoldable pub suppress_or_add :
      OrderEnvelope → OrderStore → Option String → Outcome (OrderRecord × OrderStore)
  suppress_or_add o s (some existing_id) = do
    existing ← or_raise (lookup existing_id s.orders) (key_error existing_id)
    raise_if (not (existing.content_hash == hash (content o)))
        (http_exception 409 "duplicate idempotency key conflict")
    ok (record existing { duplicate = true }, count "order_duplicate_suppression_total" s)
  suppress_or_add o s none = ok (new_order o, add_order o s)

  -- `create`
  unfoldable pub create : OrderEnvelope → OrderStore → Outcome (OrderRecord × OrderStore)
  create o s = suppress_or_add o s (truthy (lookup o.idempotency_key s.by_idempotency))

abbrev pub new_command : String → OrderRecord → String → Command
new_command command_id r order_id = record {
  command_id = command_id;
  order_id = order_id;
  workflow_code = r.workflow_code;
  status = queued;
  progress = [];
  attempts = 0;
}

unfoldable pub reuse_or_queue :
    String → String → OrderRecord → OrderStore → Option Command → Outcome (Command × OrderStore)
reuse_or_queue command_id order_id r s (some existing) = do
  raise_if (not (existing.order_id == order_id)) (http_exception 409 "command reference conflict")
  ok (existing, s)
reuse_or_queue command_id order_id r s none =
    let c = new_command command_id r order_id in
    ok (
      c,
      audit order_id "command_created" (("command_id", text command_id) ∷ []) (
          count "orders_dispatched_total" (record s { commands = insert command_id c s.commands })),
    )

-- `command`
unfoldable pub command : String → String → OrderStore → Outcome (Command × OrderStore)
command command_id order_id s = do
  r ← get order_id s
  reuse_or_queue command_id order_id r s (lookup command_id s.commands)

abbrev pub security_errors : List String
security_errors = "AUTHENTICATION_FAILURE" ∷ "AUTHORIZATION_FAILURE" ∷ "INVALID_SIGNATURE" ∷ []

-- Whether a failed command is tried again; `attempts` counts this failure.
unfoldable pub can_retry : String → Bool → ℕ → ℕ → Bool
can_retry error_code retryable attempts max_attempts =
    retryable && not (contains error_code security_errors) && ltb attempts max_attempts

-- The state of a command after a failure, and that of its order.
unfoldable pub failed_status : Bool → Bool → OrderStatus × OrderStatus
failed_status again retryable =
    if again
    then (retry_scheduled, failed_retryable)
    else if retryable
    then (dead_letter, dead_letter)
    else (failed_final, failed_final)

abbrev pub count_if : Bool → String → OrderStore → OrderStore
count_if test name s = record s { metrics = if test then (count name s).metrics else s.metrics }

-- A command and its order, which are changed in place.
abbrev pub set_both : String → Command → OrderRecord → OrderStore → OrderStore
set_both command_id c r s = record s {
  commands = insert command_id c s.commands;
  orders = insert c.order_id r s.orders;
}

-- `record_failure`
unfoldable pub record_failure :
    String → String → Bool → ℕ → OrderStore → Outcome (Command × OrderStore)
record_failure command_id error_code retryable max_attempts s = do
  c ← or_raise (lookup command_id s.commands) (http_exception 404 "command not found")
  r ← get c.order_id s
  let attempts = c.attempts + 1
  let again = can_retry error_code retryable attempts max_attempts
  let states = failed_status again retryable
  let failed_command : Command = record c { attempts = attempts; status = states.0 }
  ok (
    failed_command,
    audit r.order_id "command_failure"
        (("command_id", text command_id)
          ∷ ("error_code", text error_code)
          ∷ ("retryable", boolean again)
          ∷ [])
        (count "orders_failed_total" (
          count_if (contains error_code security_errors) "security_failure_retry_total" (
            count_if (not again && retryable) "orders_dead_lettered_total" (
              count_if again "orders_retried_total"
                (set_both command_id failed_command (record r { status = states.1 }) s))))),
  )

abbrev pub is_completed : OrderStatus → Bool
is_completed completed = true
is_completed _ = false

abbrev pub result_status : String → OrderStatus
result_status status = if status == "completed" then completed else partially_completed

abbrev pub set_result : String → String → Command → OrderStore → Outcome (Command × OrderStore)
set_result command_id status c s = do
  r ← get c.order_id s
  let finished : Command = record c { status = result_status status }
  ok (
    finished,
    audit r.order_id "command_result"
        (("command_id", text command_id) ∷ ("status", text status) ∷ [])
        (count (if status == "completed" then "orders_completed_total" else "orders_failed_total")
          (set_both command_id finished (record r { status = result_status status }) s)),
  )

-- `record_result`
unfoldable pub record_result : String → String → OrderStore → Outcome (Command × OrderStore)
record_result command_id status s = do
  c ← or_raise (lookup command_id s.commands) (http_exception 404 "command not found")
  let result = set_result command_id status c s
  if is_completed c.status && status == "completed" then ok (c, s) else result
