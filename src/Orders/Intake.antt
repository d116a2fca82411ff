-- ===== src/Orders/Intake.antt =====
-- Taking in an order: `OrderStore.create` of app/order_orchestration.py among other operations.
use codestra_middleware.Base.{
  ℕ, ◌≡◌, refl, true, false, none, some, List, [], ◌∷◌, String, ok, string_eq, ◌==◌, lookup,
  lookup-insert, lookup-insert_self, Bool-cases, inl, inr, eq-of_==, ==_refl,
}
use codestra_middleware.Text.{is_empty}
use codestra_middleware.Orders.{OrderEnvelope, Content, content}
use codestra_middleware.Orders.Records.{
  OrderRecord, OrderStore, get, truthy, new_order, add_order, count, suppress_or_add, create,
}
use codestra_middleware.Orders.Store.{
  OrderOp, op_create, Effect, kept, added, queued, changed, apply, apply-Effect,
}
use codestra_middleware.Orders.Failures.{run}

module _ (hash : Content → String) (max_attempts : ℕ) (o : OrderEnvelope) where
  -- The order is kept under its key and its identifier, with the hash of this content.
  record IsHeld (s : OrderStore) : Type 0 where
    key : lookup o.idempotency_key s.by_idempotency ≡ some o.order_id
    kept_order : OrderRecord
    held : lookup o.order_id s.orders ≡ some kept_order
    same_content : kept_order.content_hash ≡ hash (content o)

  -- The operation is no creation of another order under this one's identifier.
  abbrev pub IsOther : OrderOp → Type 0
  IsOther op =
      (p : OrderEnvelope)
      → op ≡ op_create p
      → p.order_id ≡ o.order_id
      → p.idempotency_key ≡ o.idempotency_key

  abbrev pub AreOthers : List OrderOp → Type 0
  AreOthers [] = Unit
  AreOthers (op ∷ ops) = IsOther op × AreOthers ops

  truthy-held : is_empty o.order_id ≡ false → truthy (some o.order_id) ≡ some o.order_id
  truthy-held e = rw e refl

  Effect-IsHeld :
      (op : OrderOp) (s s' : OrderStore)
      → is_empty o.order_id ≡ false
      → IsOther op
      → IsHeld s
      → Effect hash max_attempts op s s'
      → IsHeld s'
  Effect-IsHeld op s s' named other i (kept orders keys commands) = record {
    key = rw keys i.key;
    kept_order = i.kept_order;
    held = rw orders i.held;
    same_content = i.same_content;
  }
  Effect-IsHeld op s s' named other i (queued command_id order_id r found orders keys commands) =
      record {
        key = rw keys i.key;
        kept_order = i.kept_order;
        held = rw orders i.held;
        same_content = i.same_content;
      }
  Effect-IsHeld op s s' named other i (added p is_p unused orders keys commands) =
      let new_key : p.idempotency_key ≡ o.idempotency_key → ⊥ =
        λ same. cc (rw (same, i.key) at unused, truthy-held named) in
      elim (Bool-cases (p.idempotency_key == o.idempotency_key)) [
        | inl same ↦ absurd (new_key (eq-of_== _ _ same))
        | inr other_key ↦ elim (Bool-cases (p.order_id == o.order_id)) [
          | inl same_id ↦ absurd (new_key (other p is_p (eq-of_== _ _ same_id)))
          | inr other_id ↦ record {
            key = rw keys (rw (lookup-insert, other_key) i.key);
            kept_order = i.kept_order;
            held = rw orders (rw (lookup-insert, other_id) i.held);
            same_content = i.same_content;
          }
        ]
      ]
  Effect-IsHeld op s s' named other i
        (changed command_id c d r q found owner same_order same_hash few orders keys commands) =
      elim (Bool-cases (c.order_id == o.order_id)) [
        | inl same ↦ record {
          key = rw keys i.key;
          kept_order = q;
          held = rw orders (rw (lookup-insert, same) refl);
          same_content =
              cc (same_hash, owner, i.held, i.same_content, eq-of_== c.order_id o.order_id same);
        }
        | inr other_id ↦ record {
          key = rw keys i.key;
          kept_order = i.kept_order;
          held = rw orders (rw (lookup-insert, other_id) i.held);
          same_content = i.same_content;
        }
      ]

  run-IsHeld :
      (ops : List OrderOp) (s : OrderStore)
      → is_empty o.order_id ≡ false
      → AreOthers ops
      → IsHeld s
      → IsHeld (run hash max_attempts ops s)
  run-IsHeld [] s named others i = i
  run-IsHeld (op ∷ ops) s named others i =
      run-IsHeld ops (apply hash max_attempts op s) named others.1
        (Effect-IsHeld op s _ named others.0 i (apply-Effect hash max_attempts op s))

  add_order-IsHeld : (s : OrderStore) → IsHeld (add_order hash o s)
  add_order-IsHeld s = record {
    key = lookup-insert_self o.idempotency_key o.order_id s.by_idempotency;
    kept_order = new_order hash o;
    held = lookup-insert_self o.order_id (new_order hash o) s.orders;
    same_content = refl;
  }

  -- An order that is taken in under an unused key is taken in once: when the same order comes again,
  -- after any operations that create no other order under its identifier, the store answers with
  -- the record as it is by then, marked as a duplicate, and changes nothing but a counter.
  pub create_once :
      (s : OrderStore) (ops : List OrderOp)
      → is_empty o.order_id ≡ false
      → lookup o.idempotency_key s.by_idempotency ≡ none
      → AreOthers ops
      → (s' : OrderStore) × (create hash o s ≡ ok (new_order hash o, s'))
        × ((r : OrderRecord) × (get o.order_id (run hash max_attempts ops s') ≡ ok r)
            × (create hash o (run hash max_attempts ops s')
                ≡ ok (
                  record r { duplicate = true },
                  count "order_duplicate_suppression_total" (run hash max_attempts ops s'),
                )))
  unfolding create suppress_or_add get
  create_once s ops named unused others =
      let taken = add_order hash o s in
      let i = run-IsHeld ops taken named others (add_order-IsHeld s) in
      (
        taken,
        rw unused refl,
        (
          i.kept_order,
          rw i.held refl,
          rw (i.key, truthy-held named, i.held, i.same_content, ==_refl (hash (content o))) refl,
        ),
      )
