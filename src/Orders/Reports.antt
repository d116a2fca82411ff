-- ===== src/Orders/Reports.antt =====
-- What the reports of n8n (app/api/v1/orders.py) do to a command and its order.
use codestra_middleware.Base.{
  ◌≡◌, refl, sym, ◌∙◌, ap, subst, Bool, true, false, not, ◌&&◌, ◌||◌, Option, none, some, [],
  String, ok, err, or_raise, if◌then◌else◌, string_eq, ◌==◌, eq-of_==, lookup, insert,
  lookup-insert_self, >>=-elim, raise_if-elim, arith, Bool-cases, inl, inr,
}
use codestra_middleware.Raised.{Raised, Outcome}
use codestra_middleware.Json.{Value}
use codestra_middleware.Orders.{OrderStatus, completed, partially_completed}
use codestra_middleware.Orders.Records.{
  OrderRecord, Command, OrderStore, get, is_completed, result_status, set_result, record_result,
}
use codestra_middleware.Orders.Api.{Wire, Headers, verify_body_integrity, Response, first}
use codestra_middleware.Orders.Approvals.{IsGenuine, verify_body_integrity_iff}
use codestra_middleware.Orders.Results.{
  ResultEnvelope, and_then, note, check_reference, receive_result,
}

is_completed-eq : (t : OrderStatus) → is_completed t ≡ true → t ≡ completed
is_completed-eq completed e = refl
is_completed-eq t e = cc e

set_result-status :
    (command_id status : String) (old c : Command) (s s' : OrderStore)
    → set_result command_id status old s ≡ ok (c, s')
    → (lookup command_id s'.commands ≡ some c) × (c.status ≡ result_status status)
set_result-status command_id status old c s s' e = >>=-elim (get old.order_id s) _ e λ r order e₁.
    let new : Command = record old { status = result_status status } in
    let same : new ≡ c = cc e₁ in
    let left : insert command_id new s.commands ≡ s'.commands =
      ap (λ x. elim x [ ok y ↦ y.1.commands | err _ ↦ [] ]) e₁ in
    (
      subst (λ d. lookup command_id d ≡ some c) left
          (lookup-insert_self command_id new s.commands ∙ ap some same),
      ap (λ x. x.status) (sym same),
    )

choice-status :
    (test : Bool) (command_id status : String) (old c : Command) (s s' : OrderStore)
    → lookup command_id s.commands ≡ some old
    → (test ≡ true → old.status ≡ result_status status)
    → (if test then ok (old, s) else set_result command_id status old s) ≡ ok (c, s')
    → (lookup command_id s'.commands ≡ some c) × (c.status ≡ result_status status)
choice-status true command_id status old c s s' found same e =
    let is_old : old ≡ c = cc e in
    let left : s.commands ≡ s'.commands = ap (λ x. elim x [ ok y ↦ y.1.commands | err _ ↦ [] ]) e in
    (
      subst (λ d. lookup command_id d ≡ some c) left (found ∙ ap some is_old),
      ap (λ x. x.status) (sym is_old) ∙ same refl,
    )
choice-status false command_id status old c s s' found same e =
    set_result-status command_id status old c s s' e

done_before :
    (old : OrderStatus) (status : String)
    → is_completed old && status == "completed" ≡ true
    → old ≡ result_status status
done_before old status e = elim (Bool-cases (status == "completed")) [
  | inl same ↦ rw same (is_completed-eq old (ground arith))
  | inr other ↦ ground (arith, other)
]

or_raise-found : {A : Type 0} (o : Option A) (e : Raised) (a : A) → or_raise o e ≡ ok a → o ≡ some a
or_raise-found none e a h = cc
or_raise-found (some b) e a h = cc

record_result-status :
    (command_id status : String) (s s' : OrderStore) (c : Command)
    → record_result command_id status s ≡ ok (c, s')
    → (lookup command_id s'.commands ≡ some c) × (c.status ≡ result_status status)
unfolding record_result
record_result-status command_id status s s' c e =
    >>=-elim (or_raise (lookup command_id s.commands) _) _ e λ old found e₁.
      choice-status (is_completed old.status && status == "completed") command_id status old c s s'
        (or_raise-found _ _ old found) (done_before old.status status) e₁

module _ (wire : Wire) (secret : String) where
  first-ok :
      {A B : Type 0} (m : Outcome A) (s s' : OrderStore) (k : A → Response B) {b : B}
      → first m s k ≡ (ok b, s')
      → (a : A) × (m ≡ ok a) × (k a ≡ (ok b, s'))
  first-ok (ok a) s s' k e = (a, refl, e)
  first-ok (err x) s s' k e = cc

  and_then-ok :
      {A B : Type 0} (m : Outcome (A × OrderStore)) (s s' : OrderStore)
      (k : A → OrderStore → Response B) {b : B}
      → and_then m s k ≡ (ok b, s')
      → (a : A) × (t : OrderStore) × (m ≡ ok (a, t)) × (k a t ≡ (ok b, s'))
  and_then-ok (ok (a, t)) s s' k e = (a, t, refl, e)
  and_then-ok (err x) s s' k e = cc

  note-commands :
      (order_id key : String) (value : Value) (s s' : OrderStore) (b : OrderStatus)
      → note order_id key value s ≡ (ok b, s')
      → s'.commands ≡ s.commands
  note-commands order_id key value s s' b e =
      let (r, found, e₁) = first-ok (get order_id s) s s' _ e in ap (λ x. x.1.commands) (sym e₁)

  -- A result that is accepted comes in a genuine request that names the order's own command and trace.
  -- The command is then completed if the result says "completed"; any other result, also one that
  -- says "failed", leaves it partially completed.
  pub receive_result_sound :
      (body : Value) (headers : Headers) (q : ResultEnvelope) (s s' : OrderStore)
      (status : OrderStatus)
      → receive_result wire secret body headers q s ≡ (ok status, s')
      → IsGenuine wire secret body headers
        × ((r : OrderRecord) × (get q.order_id s ≡ ok r)
            × (r.command_id ≡ q.command_id)
            × (r.trace_id ≡ q.trace_id))
        × ((c : Command) × (lookup q.command_id s'.commands ≡ some c)
            × (c.status ≡ (if q.status == "completed" then completed else partially_completed)))
  unfolding receive_result
  receive_result_sound body headers q s s' status e =
      let (r, checked, e₁) =
        first-ok (check_reference wire secret body headers q.order_id q.command_id q.trace_id s) s
          s' _ e in
      let (c, t, recorded, e₂) = and_then-ok (record_result q.command_id q.status s) s s' _ e₁ in
      let (kept, now) = record_result-status q.command_id q.status s t c recorded in
      let same_commands = note-commands q.order_id "result" body t s' status e₂ in
      >>=-elim (verify_body_integrity wire secret body headers) _ checked λ u genuine e₃.
        >>=-elim (get q.order_id s) _ e₃ λ p found e₄.
          raise_if-elim (not (p.command_id == q.command_id) || not (p.trace_id == q.trace_id)) _ _
            e₄
            λ matched e₅. (
              (verify_body_integrity_iff wire secret body headers).0 genuine,
              (
                p,
                found,
                eq-of_== p.command_id q.command_id (ground arith),
                eq-of_== p.trace_id q.trace_id (ground arith),
              ),
              (c, ap (λ d. lookup q.command_id d) same_commands ∙ kept, now),
            )
