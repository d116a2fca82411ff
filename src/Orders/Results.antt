-- ===== src/Orders/Results.antt =====
-- The routes of app/api/v1/orders.py on which n8n reports: results, errors, progress and dead letters.
-- A body's dump is given beside the body.
use codestra_middleware.Base.{
  ℕ, Bool, not, ◌||◌, Option, List, [], ◌∷◌, ◌++◌, String, ok, err, ◌>>=◌, ◌>>◌, raise_if, or_raise,
  string_eq, ◌==◌, lookup, insert, pos,
}
use codestra_middleware.Raised.{Outcome, http_exception}
use codestra_middleware.Json.{Value, number, text, object, end, field}
use codestra_middleware.Orders.{OrderStatus, running, dead_letter, OrderEnvelope}
use codestra_middleware.Orders.Records.{
  OrderRecord, Command, OrderStore, count, audit, get, record_failure, record_result,
}
use codestra_middleware.Orders.Api.{
  Wire, Headers, verify_body_integrity, set_order, set_command, Response, first,
}

pub record ResultEnvelope : Type 0 where
  pub schema_version : String
  pub command_id : String
  pub order_id : String
  pub workflow_code : String
  pub execution_id : String
  pub status : String
  pub completed_actions : List String
  pub failed_actions : List String
  pub result : Value
  pub retryable : Bool
  pub error_code : Option String
  pub error_message : Option String
  pub correlation_id : String
  pub trace_id : String
  pub started_at : ℕ
  pub completed_at : ℕ

pub record ErrorEnvelope : Type 0 where
  pub command_id : String
  pub order_id : String
  pub workflow_code : String
  pub error_code : String
  pub error_message : String
  pub retryable : Bool
  pub correlation_id : String
  pub trace_id : String

pub record DeadLetterEnvelope : Type 0 where
  pub schema_version : String
  pub command_id : String
  pub order_id : String
  pub workflow_code : String
  pub reason_code : String
  pub reason : String
  pub retry_count : ℕ
  pub correlation_id : String
  pub trace_id : String

pub record ProgressEnvelope : Type 0 where
  pub order : OrderEnvelope
  pub progress_percent : ℕ
  pub message : String

-- The value that a store is left with goes on to the next step.
abbrev pub and_then {ℓ κ} :
    {A : Type ℓ} {B : Type κ}
    → Outcome (A × OrderStore)
    → OrderStore
    → (A → OrderStore → Response B)
    → Response B
and_then (ok (a, s')) s k = k a s'
and_then (err e) s k = (err e, s)

-- `record[key] = value` on the order as it is by now, and its status as the answer.
abbrev pub note : String → String → Value → OrderStore → Response OrderStatus
note order_id key value s =
    first (get order_id s) s
      λ r. (ok r.status, set_order order_id (record r { extra = insert key value r.extra }) s)

module _ (wire : Wire) (secret : String) where
  -- The checks that the reports share.
  abbrev pub check_reference :
      Value → Headers → String → String → String → OrderStore → Outcome OrderRecord
  check_reference body headers order_id command_id trace_id s = do
    verify_body_integrity wire secret body headers
    r ← get order_id s
    raise_if (not (r.command_id == command_id) || not (r.trace_id == trace_id))
        (http_exception 409 "command or trace reference mismatch")
    ok r

  unfoldable pub receive_result :
      Value → Headers → ResultEnvelope → OrderStore → Response OrderStatus
  receive_result body headers q s =
      first (check_reference body headers q.order_id q.command_id q.trace_id s) s λ r.
        and_then (record_result q.command_id q.status s) s λ c s'. note q.order_id "result" body s'

  unfoldable pub receive_error : Value → Headers → ErrorEnvelope → OrderStore → Response OrderStatus
  receive_error body headers q s =
      first (check_reference body headers q.order_id q.command_id q.trace_id s) s λ r.
        and_then (record_failure q.command_id q.error_code q.retryable 3 s) s
          λ c s'. note q.order_id "error_code" (text q.error_code) s'

  unfoldable pub receive_dead_letter :
      Value → Headers → DeadLetterEnvelope → OrderStore → Response OrderStatus
  receive_dead_letter body headers q s =
      first (check_reference body headers q.order_id q.command_id q.trace_id s) s λ r.
        let done : OrderRecord = record r {
          status = dead_letter;
          extra = insert "dead_letter" body r.extra;
        } in
        (
          ok dead_letter,
          audit q.order_id "command_dead_letter" (("command_id", text q.command_id) ∷ [])
              (count "orders_dead_lettered_total" (set_order q.order_id done s)),
        )

  abbrev pub check_progress :
      Headers → ProgressEnvelope → OrderStore → Outcome (OrderRecord × Command)
  check_progress headers q s = do
    verify_body_integrity wire secret (wire.dump q.order) headers
    r ← get q.order.order_id s
    c ←
        or_raise (lookup q.order.command_id s.commands)
          (http_exception 409 "command or trace reference mismatch")
    raise_if (not (r.command_id == q.order.command_id))
        (http_exception 409 "command or trace reference mismatch")
    ok (r, c)

  unfoldable pub receive_progress : Headers → ProgressEnvelope → OrderStore → Response OrderStatus
  receive_progress headers q s = first (check_progress headers q s) s λ known.
      let step : Value = object (
        field "percent" (number (pos q.progress_percent)) (field "message" (text q.message) end)) in
      let c : Command = record known.1 { progress = known.1.progress ++ step ∷ [] } in
      let done : OrderRecord = record known.0 { status = running } in
      (
        ok running,
        audit q.order.order_id "command_progress"
            (("command_id", text q.order.command_id)
              ∷ ("percent", number (pos q.progress_percent))
              ∷ [])
            (count "order_progress_total"
              (set_order q.order.order_id done (set_command q.order.command_id c s))),
      )
