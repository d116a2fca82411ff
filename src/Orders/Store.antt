-- ===== src/Orders/Store.antt =====
-- Runs of the order store (app/order_orchestration.py): the four operations as data, and what each
-- can change.
use codestra_middleware.Base.{
  ℕ, ◌+◌, ◌<◌, ◌≡◌, refl, sym, ap, Bool, true, false, not, ◌&&◌, Option, none, some, String, ok,
  err, or_raise, if◌then◌else◌, string_eq, ◌==◌, lookup, insert, arith, ltb, >>=-elim,
  raise_if-elim, Bool-cases, inl, inr,
}
use codestra_middleware.Raised.{Raised, Outcome}
use codestra_middleware.Orders.{retry_scheduled, OrderEnvelope, Content}
use codestra_middleware.Orders.Records.{
  OrderRecord, Command, OrderStore, get, truthy, new_order, suppress_or_add, create, new_command,
  reuse_or_queue, command, can_retry, failed_status, record_failure, is_completed, result_status,
  set_result, record_result,
}

pub data OrderOp : Type 0 where
  op_create : (o : OrderEnvelope) → OrderOp
  op_command : (command_id order_id : String) → OrderOp
  op_failure : (command_id error_code : String) (retryable : Bool) → OrderOp
  op_result : (command_id status : String) → OrderOp

abbrev pub after {ℓ} : {A : Type ℓ} → Outcome (A × OrderStore) → OrderStore → OrderStore
after (ok (a, s')) s = s'
after (err e) s = s

pub after-elim {ℓ κ} :
    {A : Type ℓ} (P : OrderStore → Type κ) (m : Outcome (A × OrderStore)) (s : OrderStore)
    → P s
    → ((a : A) (s' : OrderStore) → m ≡ ok (a, s') → P s')
    → P (after m s)
after-elim P (ok (a, s')) s p f = f a s' refl
after-elim P (err e) s p f = p

module _ (hash : Content → String) (max_attempts : ℕ) where
  -- What an operation can have done.
  pub data Effect (op : OrderOp) (s s' : OrderStore) : Type 0 where
    kept :
        s'.orders ≡ s.orders
        → s'.by_idempotency ≡ s.by_idempotency
        → s'.commands ≡ s.commands
        → Effect op s s'
    added :
        (o : OrderEnvelope)
        → op ≡ op_create o
        → truthy (lookup o.idempotency_key s.by_idempotency) ≡ none
        → s'.orders ≡ insert o.order_id (new_order hash o) s.orders
        → s'.by_idempotency ≡ insert o.idempotency_key o.order_id s.by_idempotency
        → s'.commands ≡ s.commands
        → Effect op s s'
    queued :
        (command_id order_id : String) (r : OrderRecord)
        → lookup order_id s.orders ≡ some r
        → s'.orders ≡ s.orders
        → s'.by_idempotency ≡ s.by_idempotency
        → s'.commands ≡ insert command_id (new_command command_id r order_id) s.commands
        → Effect op s s'
    changed :
        (command_id : String) (c d : Command) (r q : OrderRecord)
        → lookup command_id s.commands ≡ some c
        → lookup c.order_id s.orders ≡ some r
        → d.order_id ≡ c.order_id
        → q.content_hash ≡ r.content_hash
        → (d.status ≡ retry_scheduled → d.attempts < max_attempts)
        → s'.orders ≡ insert c.order_id q s.orders
        → s'.by_idempotency ≡ s.by_idempotency
        → s'.commands ≡ insert command_id d s.commands
        → Effect op s s'

  suppress_or_add-Effect :
      (o : OrderEnvelope) (s s' : OrderStore) (r : OrderRecord) (known : Option String)
      → truthy (lookup o.idempotency_key s.by_idempotency) ≡ known
      → suppress_or_add hash o s known ≡ ok (r, s')
      → Effect (op_create o) s s'
  unfolding suppress_or_add
  suppress_or_add-Effect o s s' r none e e₁ =
      let left = ap (λ x. elim x [ ok y ↦ y.1 | err _ ↦ s ]) e₁ in
      added o refl e (sym (ap (λ t. t.orders) left)) (sym (ap (λ t. t.by_idempotency) left))
        (sym (ap (λ t. t.commands) left))
  suppress_or_add-Effect o s s' r (some id) e e₁ =
      >>=-elim (or_raise (lookup id s.orders) _) _ e₁ λ old found e₂.
        raise_if-elim (not (old.content_hash == hash _)) _ _ e₂ λ same e₃.
          let left = ap (λ x. elim x [ ok y ↦ y.1 | err _ ↦ s ]) e₃ in
          kept (sym (ap (λ t. t.orders) left)) (sym (ap (λ t. t.by_idempotency) left))
            (sym (ap (λ t. t.commands) left))

  pub create-Effect :
      (o : OrderEnvelope) (s s' : OrderStore) (r : OrderRecord)
      → create hash o s ≡ ok (r, s')
      → Effect (op_create o) s s'
  unfolding create
  create-Effect o s s' r e = suppress_or_add-Effect o s s' r _ refl e

  -- The effect of an operation whose store is known by its fields.
  abbrev store_of {ℓ} : {A : Type ℓ} → OrderStore → Outcome (A × OrderStore) → OrderStore
  store_of s (ok y) = y.1
  store_of s (err e) = s

  reuse_or_queue-Effect :
      (op : OrderOp) (command_id order_id : String) (r : OrderRecord) (s s' : OrderStore)
      (c : Command) (known : Option Command)
      → lookup order_id s.orders ≡ some r
      → reuse_or_queue command_id order_id r s known ≡ ok (c, s')
      → Effect op s s'
  unfolding reuse_or_queue
  reuse_or_queue-Effect op command_id order_id r s s' c none found e =
      let left = ap (store_of s) e in
      queued command_id order_id r found (sym (ap (λ t. t.orders) left))
        (sym (ap (λ t. t.by_idempotency) left)) (sym (ap (λ t. t.commands) left))
  reuse_or_queue-Effect op command_id order_id r s s' c (some old) found e =
      raise_if-elim (not (old.order_id == order_id)) _ _ e λ same e₁.
        let left = ap (store_of s) e₁ in
        kept (sym (ap (λ t. t.orders) left)) (sym (ap (λ t. t.by_idempotency) left))
          (sym (ap (λ t. t.commands) left))

  or_raise-found :
      {A : Type 0} (o : Option A) (e : Raised) (a : A) → or_raise o e ≡ ok a → o ≡ some a
  or_raise-found none e a h = cc
  or_raise-found (some b) e a h = cc

  get-found :
      (order_id : String) (s : OrderStore) (r : OrderRecord)
      → get order_id s ≡ ok r
      → lookup order_id s.orders ≡ some r
  unfolding get
  get-found order_id s r e = or_raise-found _ _ r e

  pub command-Effect :
      (op : OrderOp) (command_id order_id : String) (s s' : OrderStore) (c : Command)
      → command command_id order_id s ≡ ok (c, s')
      → Effect op s s'
  unfolding command
  command-Effect op command_id order_id s s' c e = >>=-elim (get order_id s) _ e λ r found e₁.
      reuse_or_queue-Effect op command_id order_id r s s' c _ (get-found order_id s r found) e₁

  -- A failure is put down for another try only while attempts are left.
  failed_status-retry :
      (error_code : String) (retryable : Bool) (attempts : ℕ)
      → (failed_status (can_retry error_code retryable attempts max_attempts) retryable).0
        ≡ retry_scheduled
      → attempts < max_attempts
  unfolding failed_status can_retry
  failed_status-retry error_code retryable attempts e =
      elim (Bool-cases (ltb attempts max_attempts)) [
        | inl few ↦ ground arith
        | inr many ↦ ground (arith, e)
      ]

  pub record_failure-Effect :
      (op : OrderOp) (command_id error_code : String) (retryable : Bool) (s s' : OrderStore)
      (c : Command)
      → record_failure command_id error_code retryable max_attempts s ≡ ok (c, s')
      → Effect op s s'
  unfolding record_failure
  record_failure-Effect op command_id error_code retryable s s' c e =
      >>=-elim (or_raise (lookup command_id s.commands) _) _ e λ old found e₁.
        >>=-elim (get old.order_id s) _ e₁ λ r order e₂.
          let left = ap (store_of s) e₂ in
          changed command_id old _ r _ (or_raise-found _ _ old found)
            (get-found old.order_id s r order) refl refl
            (failed_status-retry error_code retryable (old.attempts + 1))
            (sym (ap (λ t. t.orders) left)) (sym (ap (λ t. t.by_idempotency) left))
            (sym (ap (λ t. t.commands) left))

  result_status-not_retry : (status : String) → result_status status ≡ retry_scheduled → ⊥
  result_status-not_retry status e = elim (Bool-cases (status == "completed")) [
    | inl same ↦ cc (rw same at e)
    | inr other ↦ cc (rw other at e)
  ]

  set_result-Effect :
      (op : OrderOp) (command_id status : String) (old c : Command) (s s' : OrderStore)
      → lookup command_id s.commands ≡ some old
      → set_result command_id status old s ≡ ok (c, s')
      → Effect op s s'
  set_result-Effect op command_id status old c s s' found e =
      >>=-elim (get old.order_id s) _ e λ r order e₁.
        let left = ap (store_of s) e₁ in
        changed command_id old _ r _ found (get-found old.order_id s r order) refl refl
          (λ again. absurd (result_status-not_retry status again)) (sym (ap (λ t. t.orders) left))
          (sym (ap (λ t. t.by_idempotency) left)) (sym (ap (λ t. t.commands) left))

  choose-Effect :
      (op : OrderOp) (command_id status : String) (test : Bool) (old c : Command)
      (s s' : OrderStore)
      → lookup command_id s.commands ≡ some old
      → (if test then ok (old, s) else set_result command_id status old s) ≡ ok (c, s')
      → Effect op s s'
  choose-Effect op command_id status true old c s s' found e =
      let left = ap (store_of s) e in
      kept (sym (ap (λ t. t.orders) left)) (sym (ap (λ t. t.by_idempotency) left))
        (sym (ap (λ t. t.commands) left))
  choose-Effect op command_id status false old c s s' found e =
      set_result-Effect op command_id status old c s s' found e

  pub record_result-Effect :
      (op : OrderOp) (command_id status : String) (s s' : OrderStore) (c : Command)
      → record_result command_id status s ≡ ok (c, s')
      → Effect op s s'
  unfolding record_result
  record_result-Effect op command_id status s s' c e =
      >>=-elim (or_raise (lookup command_id s.commands) _) _ e λ old found e₁.
        choose-Effect op command_id status (is_completed old.status && status == "completed") old c
          s s' (or_raise-found _ _ old found) e₁

  -- The store after an operation, and after several.
  unfoldable pub apply : OrderOp → OrderStore → OrderStore
  apply (op_create o) s = after (create hash o s) s
  apply (op_command command_id order_id) s = after (command command_id order_id s) s
  apply (op_failure command_id error_code retryable) s =
      after (record_failure command_id error_code retryable max_attempts s) s
  apply (op_result command_id status) s = after (record_result command_id status s) s

  pub apply-Effect : (op : OrderOp) (s : OrderStore) → Effect op s (apply op s)
  unfolding apply
  apply-Effect (op_create o) s =
      after-elim (Effect (op_create o) s) _ s (kept refl refl refl)
        λ r s' e. create-Effect o s s' r e
  apply-Effect (op_command command_id order_id) s =
      after-elim (Effect (op_command command_id order_id) s) _ s (kept refl refl refl)
        λ c s' e. command-Effect _ command_id order_id s s' c e
  apply-Effect (op_failure command_id error_code retryable) s =
      after-elim (Effect (op_failure command_id error_code retryable) s) _ s (kept refl refl refl)
        λ c s' e. record_failure-Effect _ command_id error_code retryable s s' c e
  apply-Effect (op_result command_id status) s =
      after-elim (Effect (op_result command_id status) s) _ s (kept refl refl refl)
        λ c s' e. record_result-Effect _ command_id status s s' c e
