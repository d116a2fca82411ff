-- ===== src/Orders/Tests.antt =====
-- The theorems on app/order_orchestration.py and app/api/v1/orders.py at one order.
use codestra_middleware.Base.{
  ◌≡◌, ◌↔◌, refl, true, false, none, some, List, [], ◌∷◌, String, ok, string_eq, lookup, insert,
  arith,
}
use codestra_middleware.Json.{object, end}
use codestra_middleware.Orders.{
  OrderStatus, validated, queued, approved, rejected, retry_scheduled, failed_final,
  dispatched_to_n8n, completed, partially_completed, Approval, OrderEnvelope, Content, content,
  Settings, validate_for_dispatch, allowed_actions,
}
use codestra_middleware.Orders.Records.{
  OrderRecord, Command, OrderStore, get, new_order, create, new_command, record_failure,
  security_errors, count,
}
use codestra_middleware.Orders.Dispatch.{Dispatchable, validate_for_dispatch_iff}
use codestra_middleware.Orders.Store.{OrderOp, op_create, op_command, op_failure, op_result}
use codestra_middleware.Orders.Failures.{IsSound, run, run-IsSound}
use codestra_middleware.Orders.Intake.{create_once}
use codestra_middleware.Orders.Api.{
  Wire, Headers, ApprovalRequest, verify_body_integrity, approved_record, approve_order,
  reject_order, dispatch_order, set_order,
}
use codestra_middleware.Orders.Results.{ResultEnvelope, receive_result}
use codestra_middleware.Orders.Approvals.{IsGenuine, rejected_is_dispatched}

abbrev order : OrderEnvelope
order = record {
  schema_version = "codestra.order.command.v1";
  command_id = "cmd";
  event_id = "evt";
  order_id = "ord";
  order_type = "callback";
  source_system = "odoo";
  organization_id = "org";
  customer_reference = "cust";
  workflow_code = "CDST-ORDER-CALLBACK-V1";
  workflow_version = "1";
  approval = record {
    required = true;
    status = "approved";
    approved_by = some "sue";
    approved_at = none;
    content_hash = "hash";
  };
  approval_required = none;
  approval_status = none;
  approval_reference = none;
  approval_content_hash = none;
  payload = object end;
  requested_actions = "create_callback" ∷ [];
  approved_actions = none;
  constraints = object end;
  idempotency_key = "key";
  correlation_id = "corr";
  trace_id = "trace";
  requested_at = 1;
  expires_at = 100;
}

abbrev hash : Content → String
hash c = "hash"

abbrev settings : Settings
settings = record { order_orchestration_enabled = true; n8n_order_dispatch_enabled = true }

abbrev empty : OrderStore
empty = record { orders = []; by_idempotency = []; commands = []; audit_events = []; metrics = [] }

abbrev kept_record : OrderRecord
kept_record = new_order hash order

abbrev waiting : Command
waiting = new_command "cmd" kept_record "ord"

abbrev store : OrderStore
store = record empty { orders = ("ord", kept_record) ∷ []; commands = ("cmd", waiting) ∷ [] }

order-Dispatchable : Dispatchable hash settings 50 order
order-Dispatchable = record {
  alive = omega arith;
  known_workflow = refl;
  allowed = refl;
  approved = λ e. refl;
  untouched = refl;
  enabled = λ e. (refl, refl);
}

validate_for_dispatch_iff_example :
    (validate_for_dispatch hash settings 50 order ≡ ok tt) ↔ Dispatchable hash settings 50 order
validate_for_dispatch_iff_example = validate_for_dispatch_iff hash settings 50 order

empty-IsSound : IsSound 3 empty
unfolding lookup
empty-IsSound = record {
  keys = λ k id e. absurd (cc e);
  owners = λ id c e. absurd (cc e);
  attempts_left = λ id c e. absurd (cc e);
}

abbrev ops : List OrderOp
ops =
    op_create order
    ∷ op_command "cmd" "ord"
    ∷ op_failure "cmd" "TIMEOUT" true
    ∷ op_result "cmd" "completed"
    ∷ []

run-IsSound_example : IsSound 3 (run hash 3 ops empty)
run-IsSound_example = run-IsSound hash 3 ops empty empty-IsSound

abbrev busy : OrderStore
busy = run hash 3 (op_create order ∷ op_command "cmd" "ord" ∷ []) empty

busy_runs : lookup "cmd" busy.commands ≡ some waiting
unfolding codestra_middleware.Orders.Store.apply create
    codestra_middleware.Orders.Records.suppress_or_add codestra_middleware.Orders.Records.command
    codestra_middleware.Orders.Records.reuse_or_queue get lookup insert
busy_runs = refl

create_once_example :
    (s : OrderStore) × (create hash order empty ≡ ok (kept_record, s))
    × ((r : OrderRecord) × (get "ord" (run hash 3 (op_command "cmd" "ord" ∷ []) s) ≡ ok r)
        × (create hash order (run hash 3 (op_command "cmd" "ord" ∷ []) s)
            ≡ ok (
              record r { duplicate = true },
              count "order_duplicate_suppression_total"
                  (run hash 3 (op_command "cmd" "ord" ∷ []) s),
            )))
unfolding lookup
create_once_example =
    create_once hash 3 order empty (op_command "cmd" "ord" ∷ []) refl refl
      ((λ p e. absurd (cc e)), tt)

get_runs : get "ord" store ≡ ok kept_record
unfolding get lookup
get_runs = refl

abbrev wire : Wire
wire = record {
  digest = λ v. "digest";
  mac = λ secret signed. "mac";
  isoformat = λ now. "now";
  dump = λ o. object end;
}

abbrev headers : Headers
headers = record {
  timestamp = some "1";
  nonce = some "n";
  signature = some "mac";
  body_hash = some "digest";
}

headers-IsGenuine : IsGenuine wire "secret" (object end) headers
headers-IsGenuine = record {
  timestamp = refl;
  nonce = refl;
  signature = refl;
  body_hash = refl;
  hash_given = refl;
  signed = λ e. refl;
}

abbrev approval : ApprovalRequest
approval = record { approved_by = "sue"; content_hash = "hash" }

abbrev accepted : OrderRecord
accepted = approved_record "sue" 7 kept_record

approve_runs :
    approve_order wire "secret" hash 7 (object end) headers "ord" approval store
    ≡ (ok accepted, set_order "ord" accepted store)
unfolding approve_order verify_body_integrity get lookup
approve_runs = refl

abbrev idle : OrderStore
idle = record store { commands = [] }

rejected_is_dispatched_example :
    (q : OrderRecord) × (s : OrderStore) × (p : OrderRecord) × (reject_order wire "secret" hash
        headers "ord" idle
      ≡ (ok q, s))
    × (get "ord" s ≡ ok q)
    × (q.status ≡ rejected)
    × ((dispatch_order wire "secret" hash settings 50 headers order s).0 ≡ ok dispatched_to_n8n)
    × (get "ord" (dispatch_order wire "secret" hash settings 50 headers order s).1 ≡ ok p)
    × (p.status ≡ dispatched_to_n8n)
unfolding get lookup
rejected_is_dispatched_example =
    rejected_is_dispatched wire "secret" hash settings 50 headers headers order idle kept_record
      headers-IsGenuine headers-IsGenuine order-Dispatchable refl refl refl

-- The command belongs to another order.
abbrev foreign : Command
foreign = record waiting { order_id = "else" }

abbrev contested : OrderStore
contested = record store { commands = ("cmd", foreign) ∷ [] }

abbrev failure : ResultEnvelope
failure = record {
  schema_version = "codestra.order.result.v1";
  command_id = "cmd";
  order_id = "ord";
  workflow_code = "CDST-ORDER-CALLBACK-V1";
  execution_id = "x";
  status = "failed";
  completed_actions = [];
  failed_actions = "create_callback" ∷ [];
  result = object end;
  retryable = false;
  error_code = none;
  error_message = none;
  correlation_id = "corr";
  trace_id = "trace";
  started_at = 1;
  completed_at = 2;
}

abbrev reported : OrderStore
reported = (receive_result wire "secret" (object end) headers failure store).1

report_runs :
    receive_result wire "secret" (object end) headers failure store
    ≡ (ok partially_completed, reported)
unfolding receive_result verify_body_integrity get codestra_middleware.Orders.Records.record_result
    lookup insert
report_runs = refl
