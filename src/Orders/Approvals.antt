-- ===== src/Orders/Approvals.antt =====
-- What the routes of app/api/v1/orders.py make of approvals and rejections.
use codestra_middleware.Base.{
  ℕ, ◌≡◌, ◌≢◌, ◌↔◌, refl, sym, ◌∙◌, ap, subst, false, not, ◌&&◌, ◌||◌, none, some, String, ok, err,
  string_eq, ◌==◌, ==_iff, ==_refl, ==_of_ne, eq-of_==, lookup, lookup-insert_self, >>=-elim,
  raise_if-elim, arith, true≢false,
}
use codestra_middleware.Raised.{Outcome, http_exception}
use codestra_middleware.Json.{Value, object, end}
use codestra_middleware.Text.{is_empty}
use codestra_middleware.Orders.{
  rejected, dispatched_to_n8n, OrderEnvelope, Content, content, Settings,
}
use codestra_middleware.Orders.Records.{
  OrderRecord, Command, OrderStore, get, command, reuse_or_queue,
}
use codestra_middleware.Orders.Dispatch.{Dispatchable, validate_for_dispatch_iff}
use codestra_middleware.Orders.Api.{
  Wire, Headers, given, signed_text, verify_body_integrity, set_order, Response, first,
  ApprovalRequest, approved_record, check_approval, check_dispatch, approve_order, reject_order,
  dispatched_record, dispatch_order,
}

-- A request whose body hash is right and, where a secret is set, whose signature is too.
pub record IsGenuine (wire : Wire) (secret : String) (body : Value) (headers : Headers)
    : Type 0 where
  pub timestamp : is_empty (given headers.timestamp) ≡ false
  pub nonce : is_empty (given headers.nonce) ≡ false
  pub signature : is_empty (given headers.signature) ≡ false
  pub body_hash : wire.digest body ≡ given headers.body_hash
  pub hash_given : is_empty (given headers.body_hash) ≡ false
  pub signed :
      is_empty secret ≡ false
      → wire.mac secret (signed_text headers (given headers.body_hash)) ≡ given headers.signature

module _ (wire : Wire) (secret : String) where
  signature-of_guard :
      (headers : Headers) (computed : String)
      → not (is_empty secret)
          && not (wire.mac secret (signed_text headers computed) == given headers.signature)
        ≡ false
      → is_empty secret ≡ false
      → wire.mac secret (signed_text headers computed) ≡ given headers.signature
  signature-of_guard headers computed e set =
      eq-of_== (wire.mac secret (signed_text headers computed)) (given headers.signature)
        (ground arith)

  guard-of_signature :
      (headers : Headers) (computed : String)
      → (is_empty secret ≡ false
          → wire.mac secret (signed_text headers computed) ≡ given headers.signature)
      → not (is_empty secret)
          && not (wire.mac secret (signed_text headers computed) == given headers.signature)
        ≡ false
  guard-of_signature headers computed k =
      ground (
        arith,
        ==_iff (wire.mac secret (signed_text headers computed)) (given headers.signature),
        k,
      )

  -- The guards of `verify_body_integrity`, on what the request gives.
  guards_iff :
      (headers : Headers) (body : Value)
      → verify_body_integrity wire secret body headers ≡ ok tt
      → IsGenuine wire secret body headers
  unfolding verify_body_integrity
  guards_iff headers body e =
      raise_if-elim
        (is_empty (given headers.timestamp)
          || is_empty (given headers.nonce)
          || is_empty (given headers.signature)
          || is_empty (given headers.body_hash))
        _ _ e
        λ all_given e₁.
          raise_if-elim (not (wire.digest body == given headers.body_hash)) _ _ e₁ λ whole e₂.
            let same : wire.digest body ≡ given headers.body_hash =
              eq-of_== (wire.digest body) (given headers.body_hash) (ground arith) in
            record {
              timestamp = ground arith;
              nonce = ground arith;
              signature = ground arith;
              body_hash = same;
              hash_given = ground arith;
              signed = λ set.
                  ap (λ t. wire.mac secret (signed_text headers t)) (sym same)
                  ∙ signature-of_guard headers (wire.digest body) (ground arith) set;
            }

  ok-of_genuine :
      (headers : Headers) (body : Value)
      → IsGenuine wire secret body headers
      → verify_body_integrity wire secret body headers ≡ ok tt
  unfolding verify_body_integrity
  ok-of_genuine headers body g =
      rw
        (
          g.timestamp,
          g.nonce,
          g.signature,
          g.hash_given,
          g.body_hash,
          ==_refl (given headers.body_hash),
          guard-of_signature headers (given headers.body_hash) g.signed,
        )
        refl

  -- A request is let through if and only if it gives its timestamp, nonce, signature and body hash,
  -- the hash is that of its body, and, where a secret is set, the signature is the code of
  -- timestamp, nonce and hash under the secret.
  pub verify_body_integrity_iff :
      (body : Value) (headers : Headers)
      → (verify_body_integrity wire secret body headers ≡ ok tt)
        ↔ IsGenuine wire secret body headers
  verify_body_integrity_iff body headers = (guards_iff headers body, ok-of_genuine headers body)

module _ (wire : Wire) (secret : String) (hash : Content → String) where
  ne-of_== : (a b : String) → (a == b) ≡ false → a ≢ b
  ne-of_== a b e same = true≢false (sym ((==_iff a b).1 same) ∙ e)

  get-set_order :
      (order_id : String) (r : OrderRecord) (s : OrderStore)
      → get order_id (set_order order_id r s) ≡ ok r
  unfolding get
  get-set_order order_id r s = rw (lookup-insert_self order_id r s.orders) refl

  first-ok :
      {A B : Type 0} (m : Outcome A) (s s' : OrderStore) (k : A → Response B) {b : B}
      → first m s k ≡ (ok b, s')
      → (a : A) × (m ≡ ok a) × (k a ≡ (ok b, s'))
  first-ok (ok a) s s' k e = (a, refl, e)
  first-ok (err x) s s' k e = cc

  -- An approval that is accepted comes in a genuine request, is for the content that was taken in,
  -- and is not from the system that sent the order; the order is then approved by that approver, and
  -- nothing else of it changes.
  pub approve_order_sound :
      (now : ℕ) (body : Value) (headers : Headers) (order_id : String) (approval : ApprovalRequest)
      (s s' : OrderStore) (done : OrderRecord)
      → approve_order wire secret hash now body headers order_id approval s ≡ (ok done, s')
      → IsGenuine wire secret body headers
        × ((r : OrderRecord) × (get order_id s ≡ ok r)
            × (approval.content_hash ≡ r.content_hash)
            × (approval.approved_by ≢ r.envelope.source_system)
            × (done ≡ approved_record approval.approved_by now r))
        × (get order_id s' ≡ ok done)
        × (s'.commands ≡ s.commands)
  unfolding approve_order
  approve_order_sound now body headers order_id approval s s' done e =
      let (r, checked, e₁) =
        first-ok (check_approval wire secret hash body headers order_id approval s) s s' _ e in
      >>=-elim (verify_body_integrity wire secret body headers) _ checked λ u genuine e₂.
        >>=-elim (get order_id s) _ e₂ λ q found e₃.
          raise_if-elim (not (approval.content_hash == q.content_hash)) _ _ e₃ λ same e₄.
            raise_if-elim (approval.approved_by == q.envelope.source_system) _ _ e₄ λ other e₅.
              let is_r : q ≡ r = cc e₅ in
              let result : approved_record approval.approved_by now r ≡ done = cc e₁ in
              let left : set_order order_id (approved_record approval.approved_by now r) s ≡ s' =
                ap (λ p. p.1) e₁ in
              (
                (verify_body_integrity_iff wire secret body headers).0 genuine,
                (
                  r,
                  found ∙ ap ok is_r,
                  eq-of_== _ _ (ground arith) ∙ ap (λ x. x.content_hash) is_r,
                  subst (λ x. approval.approved_by ≢ x.envelope.source_system) is_r
                      (ne-of_== approval.approved_by q.envelope.source_system other),
                  sym result,
                ),
                ap (get order_id) (sym left) ∙ get-set_order order_id _ s ∙ ap ok result,
                ap (λ x. x.commands) (sym left),
              )

  check_dispatch-ok :
      (settings : Settings) (now : ℕ) (headers : Headers) (o : OrderEnvelope) (s : OrderStore)
      (r : OrderRecord)
      → IsGenuine wire secret (wire.dump o) headers
      → Dispatchable hash settings now o
      → get o.order_id s ≡ ok r
      → r.content_hash ≡ hash (content o)
      → check_dispatch wire secret hash settings now headers o s ≡ ok r
  check_dispatch-ok settings now headers o s r genuine d found same =
      rw
        (
          (verify_body_integrity_iff wire secret (wire.dump o) headers).1 genuine,
          found,
          (validate_for_dispatch_iff hash settings now o).1 d,
          same,
          ==_refl (hash (content o)),
        )
        refl

  -- A rejection does not keep an order from being dispatched: after the route has rejected it, a
  -- genuine request to dispatch it, whose own envelope says that it is approved, is accepted, and the
  -- order goes from rejected to dispatched.
  pub rejected_is_dispatched :
      (settings : Settings) (now : ℕ) (refusal headers : Headers) (o : OrderEnvelope)
      (s : OrderStore) (r : OrderRecord)
      → IsGenuine wire secret (object end) refusal
      → IsGenuine wire secret (wire.dump o) headers
      → Dispatchable hash settings now o
      → get o.order_id s ≡ ok r
      → r.content_hash ≡ hash (content o)
      → lookup o.command_id s.commands ≡ none
      → (q : OrderRecord) × (s' : OrderStore) × (p : OrderRecord) × (reject_order wire secret hash
            refusal o.order_id s
          ≡ (ok q, s'))
        × (get o.order_id s' ≡ ok q)
        × (q.status ≡ rejected)
        × ((dispatch_order wire secret hash settings now headers o s').0 ≡ ok dispatched_to_n8n)
        × (get o.order_id (dispatch_order wire secret hash settings now headers o s').1 ≡ ok p)
        × (p.status ≡ dispatched_to_n8n)
  unfolding reject_order dispatch_order command reuse_or_queue get
  rejected_is_dispatched settings now refusal headers o s r no_fake genuine d found same unused =
      let q : OrderRecord = record r { status = rejected } in
      let s' = set_order o.order_id q s in
      let p = dispatched_record wire secret hash now o q in
      let checked =
        check_dispatch-ok settings now headers o s' q genuine d (get-set_order o.order_id q s)
          same in
      (
        q,
        s',
        p,
        rw ((verify_body_integrity_iff wire secret (object end) refusal).1 no_fake, found) refl,
        get-set_order o.order_id q s,
        refl,
        rw (checked, get-set_order o.order_id p s', unused) refl,
        rw (checked, get-set_order o.order_id p s', unused) (get-set_order o.order_id p s'),
        refl,
      )

  -- A dispatch that is refused because its command belongs to another order has changed the order all
  -- the same: the caller gets status 409, and the order is left as dispatched, with no command of
  -- its own.
  pub refused_dispatch_marks :
      (settings : Settings) (now : ℕ) (headers : Headers) (o : OrderEnvelope) (s : OrderStore)
      (r : OrderRecord) (c : Command)
      → IsGenuine wire secret (wire.dump o) headers
      → Dispatchable hash settings now o
      → get o.order_id s ≡ ok r
      → r.content_hash ≡ hash (content o)
      → lookup o.command_id s.commands ≡ some c
      → c.order_id ≢ o.order_id
      → ((dispatch_order wire secret hash settings now headers o s).0
          ≡ err (http_exception 409 "command reference conflict"))
        × ((dispatch_order wire secret hash settings now headers o s).1.commands ≡ s.commands)
        × ((p : OrderRecord) × (get o.order_id
                (dispatch_order wire secret hash settings now headers o s).1
              ≡ ok p)
            × (p.status ≡ dispatched_to_n8n))
  unfolding dispatch_order command reuse_or_queue
  refused_dispatch_marks settings now headers o s r c genuine d found same taken other =
      let p = dispatched_record wire secret hash now o r in
      let checked = check_dispatch-ok settings now headers o s r genuine d found same in
      let apart = ==_of_ne c.order_id o.order_id other in
      (
        rw (checked, get-set_order o.order_id p s, taken, apart) refl,
        rw (checked, get-set_order o.order_id p s, taken, apart) refl,
        (
          p,
          rw (checked, get-set_order o.order_id p s, taken, apart) (get-set_order o.order_id p s),
          refl,
        ),
      )
