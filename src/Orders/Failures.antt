-- ===== src/Orders/Failures.antt =====
-- The order store (app/order_orchestration.py) over any operations, and failed commands.
use codestra_middleware.Base.{
  ℕ, ◌+◌, ◌<◌, ◌≡◌, ◌↔◌, refl, subst, Bool, true, false, some, List, [], ◌∷◌, String, ok, contains,
  string_eq, ◌==◌, lookup, insert, lookup-insert, lookup-insert_self, arith, Bool-cases, inl, inr,
  eq-of_==, Dict,
}
use codestra_middleware.Orders.{retry_scheduled, failed_final, Content}
use codestra_middleware.Orders.Records.{
  OrderRecord, Command, OrderStore, new_order, new_command, get, can_retry, failed_status,
  security_errors, record_failure,
}
use codestra_middleware.Orders.Store.{
  OrderOp, Effect, kept, added, queued, changed, apply, apply-Effect,
}

abbrev pub IsKnown : String → Dict String OrderRecord → Type 0
IsKnown order_id orders = (r : OrderRecord) × (lookup order_id orders ≡ some r)

-- Every key leads to an order, every command belongs to one, and a command that waits for another
-- try has attempts left.
pub record IsSound (max_attempts : ℕ) (s : OrderStore) : Type 0 where
  pub keys :
      (key order_id : String)
      → lookup key s.by_idempotency ≡ some order_id
      → IsKnown order_id s.orders
  pub owners :
      (command_id : String) (c : Command)
      → lookup command_id s.commands ≡ some c
      → IsKnown c.order_id s.orders
  pub attempts_left :
      (command_id : String) (c : Command)
      → lookup command_id s.commands ≡ some c
      → c.status ≡ retry_scheduled
      → c.attempts < max_attempts

IsKnown-insert :
    (order_id id : String) (r : OrderRecord) (orders : Dict String OrderRecord)
    → IsKnown id orders
    → IsKnown id (insert order_id r orders)
IsKnown-insert order_id id r orders (q, e) = elim (Bool-cases (order_id == id)) [
  | inl same ↦ (r, rw (lookup-insert, same) refl)
  | inr other ↦ (q, rw (lookup-insert, other) e)
]

-- What holds of a new entry and of the old ones holds of all.
insert-elim {ℓ κ} :
    {V : Type ℓ} (P : String → V → Type κ) (k : String) (v : V) (d : Dict String V)
    → P k v
    → ((j : String) (w : V) → lookup j d ≡ some w → P j w)
    → (j : String) (w : V) → lookup j (insert k v d) ≡ some w
    → P j w
insert-elim P k v d new old j w e = elim (Bool-cases (k == j)) [
  | inl same ↦
      let here : v ≡ w = cc (rw (lookup-insert, same) at e) in
      subst (λ x. P j x) here (subst (λ i. P i v) (eq-of_== k j same) new)
  | inr other ↦ old j w (rw (lookup-insert, other) at e)
]

module _ (hash : Content → String) (max_attempts : ℕ) where
  Effect-IsSound :
      (op : OrderOp) (s s' : OrderStore)
      → IsSound max_attempts s
      → Effect hash max_attempts op s s'
      → IsSound max_attempts s'
  Effect-IsSound op s s' i (kept orders keys commands) = record {
    keys = rw (orders, keys) i.keys;
    owners = rw (orders, commands) i.owners;
    attempts_left = rw commands i.attempts_left;
  }
  Effect-IsSound op s s' i (added o _ _ orders keys commands) = record {
    keys =
        rw (orders, keys)
          (insert-elim (λ j w. IsKnown w (insert o.order_id (new_order hash o) s.orders))
            o.idempotency_key o.order_id s.by_idempotency
            (new_order hash o, lookup-insert_self o.order_id (new_order hash o) s.orders)
            (λ j w e. IsKnown-insert o.order_id w (new_order hash o) s.orders (i.keys j w e)));
    owners =
        rw (orders, commands)
          (λ k c e.
            IsKnown-insert o.order_id c.order_id (new_order hash o) s.orders (i.owners k c e));
    attempts_left = rw commands i.attempts_left;
  }
  Effect-IsSound op s s' i (queued command_id order_id r found orders keys commands) = record {
    keys = rw (orders, keys) i.keys;
    owners =
        rw (orders, commands)
          (insert-elim (λ j c. IsKnown c.order_id s.orders) command_id
            (new_command command_id r order_id) s.commands (r, found) i.owners);
    attempts_left = rw commands (
        insert-elim (λ j c. c.status ≡ retry_scheduled → c.attempts < max_attempts) command_id
          (new_command command_id r order_id) s.commands (λ again. cc again) i.attempts_left);
  }
  Effect-IsSound op s s' i
        (changed command_id c d r q found owner same_order same_hash few orders keys commands) =
      record {
        keys =
            rw (orders, keys) (λ k id e. IsKnown-insert c.order_id id q s.orders (i.keys k id e));
        owners =
            rw (orders, commands)
              (insert-elim (λ j x. IsKnown x.order_id (insert c.order_id q s.orders)) command_id d
                s.commands (q, rw same_order (lookup-insert_self c.order_id q s.orders))
                (λ k x e. IsKnown-insert c.order_id x.order_id q s.orders (i.owners k x e)));
        attempts_left = rw commands (
            insert-elim (λ j x. x.status ≡ retry_scheduled → x.attempts < max_attempts) command_id d
              s.commands few i.attempts_left);
      }

  abbrev pub run : List OrderOp → OrderStore → OrderStore
  run [] s = s
  run (op ∷ ops) s = run ops (apply hash max_attempts op s)

  -- No sequence of creations, commands, failures and results breaks the store: every idempotency key
  -- still leads to an order, every command to its order, and every command in the state
  -- RETRY_SCHEDULED has failed less than `max_attempts` times.
  pub run-IsSound :
      (ops : List OrderOp) (s : OrderStore)
      → IsSound max_attempts s
      → IsSound max_attempts (run ops s)
  run-IsSound [] s i = i
  run-IsSound (op ∷ ops) s i =
      run-IsSound ops (apply hash max_attempts op s)
        (Effect-IsSound op s _ i (apply-Effect hash max_attempts op s))

  retry_iff :
      (error_code : String) (retryable : Bool) (attempts : ℕ)
      → ((failed_status (can_retry error_code retryable attempts max_attempts) retryable).0
          ≡ retry_scheduled)
        ↔ ((retryable ≡ true)
            × (contains error_code security_errors ≡ false)
            × (attempts < max_attempts))
  unfolding failed_status can_retry
  retry_iff error_code retryable attempts =
      let insecure = contains error_code security_errors in
      elim (Bool-cases retryable) [
        | inl again ↦ elim (Bool-cases insecure) [
          | inl attack ↦ ground (arith, again, attack)
          | inr honest ↦ ground (arith, again, honest)
        ]
        | inr final ↦ ground (arith, final)
      ]

  can_retry-retryable :
      (error_code : String) (retryable : Bool) (attempts : ℕ)
      → can_retry error_code retryable attempts max_attempts ≡ true
      → retryable ≡ true
  unfolding can_retry
  can_retry-retryable error_code true attempts e = refl
  can_retry-retryable error_code false attempts e = cc e

  final_iff :
      (again retryable : Bool)
      → (again ≡ true → retryable ≡ true)
      → ((failed_status again retryable).0 ≡ failed_final) ↔ (retryable ≡ false)
  unfolding failed_status
  final_iff again retryable k = ground (arith, k)

  -- A failure of a known command is always recorded: it counts one more attempt; the command is
  -- scheduled again if and only if the failure is retryable, is no security failure, and attempts
  -- are left; and it has failed for good, without a dead letter, if and only if the failure is not
  -- retryable.
  pub record_failure_lem :
      (command_id error_code : String) (retryable : Bool) (s : OrderStore) (c : Command)
      → IsSound max_attempts s
      → lookup command_id s.commands ≡ some c
      → (s' : OrderStore) × (d : Command) × (record_failure command_id error_code retryable
            max_attempts s
          ≡ ok (d, s'))
        × (lookup command_id s'.commands ≡ some d)
        × (d.attempts ≡ c.attempts + 1)
        × ((d.status ≡ retry_scheduled) ↔ (
            (retryable ≡ true)
            × (contains error_code security_errors ≡ false)
            × (c.attempts + 1 < max_attempts)))
        × ((d.status ≡ failed_final) ↔ (retryable ≡ false))
  unfolding record_failure get
  record_failure_lem command_id error_code retryable s c i found =
      let (r, order) = i.owners command_id c found in
      let again = can_retry error_code retryable (c.attempts + 1) max_attempts in
      rw found (
        rw order (
          _,
          _,
          refl,
          lookup-insert_self command_id _ s.commands,
          refl,
          retry_iff error_code retryable (c.attempts + 1),
          final_iff again retryable (can_retry-retryable error_code retryable (c.attempts + 1)),
        ))
