-- ===== src/Controller/Histories.antt =====
-- What a run of the controller (app/core/controller.py) can make of a task, and of the key that it
-- was created for. A new task's identifier is a fresh `uuid4`.
use codestra_middleware.Base.{
  ◌≡◌, refl, sym, ◌∙◌, subst, true, none, some, String, ◌==◌, string_eq, pair_eq, lookup, insert,
  Dict, lookup-insert, Bool-cases, inl, inr, eq-of_==, lookup-insert_ne,
}
use codestra_middleware.Controller.Tokens.{Signer}
use codestra_middleware.Controller.Tasks.{
  TaskState, executing, TaskRecord, Hashes, Controller, audit,
}
use codestra_middleware.Controller.Operations.{store}
use codestra_middleware.Controller.Runs.{
  Op, new_id, Effect, unchanged, added, moved, ran, registered, opened, leads,
}

-- The states that a task goes through.
pub data Goes (s : TaskState) : TaskState → Type 0 where
  stays : Goes s s
  goes : {t u : TaskState} → Goes s t → leads t u ≡ true → Goes s u

-- Every task is kept under its own identifier.
abbrev pub IsKeyed : Controller → Type 0
IsKeyed c =
    (task_id : String) (t : TaskRecord) → lookup task_id c.tasks ≡ some t → t.task_id ≡ task_id

-- The task, later: its identity, its request and its key are the same.
pub record Later (t : TaskRecord) (task_id : String) (tasks : Dict String TaskRecord) : Type 0 where
  pub new : TaskRecord
  pub kept : lookup task_id tasks ≡ some new
  pub same_tenant : new.tenant_id ≡ t.tenant_id
  pub same_request : new.request_hash ≡ t.request_hash
  pub path : Goes t.state new.state

store-IsKeyed : (t : TaskRecord) (c : Controller) → IsKeyed c → IsKeyed (store t c)
store-IsKeyed t c k id u e = elim (Bool-cases (t.task_id == id)) [
  | inl same ↦ cc (rw (lookup-insert, same) at e, eq-of_== t.task_id id same)
  | inr other ↦ k id u (rw (lookup-insert, other) at e)
]

-- A task that changes keeps its place, and the others are as they were.
store-Later :
    (t old new : TaskRecord) (id task_id : String) (c : Controller)
    → IsKeyed c
    → lookup id c.tasks ≡ some old
    → new.task_id ≡ old.task_id
    → new.tenant_id ≡ old.tenant_id
    → new.request_hash ≡ old.request_hash
    → leads old.state new.state ≡ true
    → Later t task_id c.tasks
    → Later t task_id (insert new.task_id new c.tasks)
store-Later t old new id task_id c k found same_id same_tenant same_request goes_on l =
    elim (Bool-cases (new.task_id == task_id)) [
      | inl same ↦
          let at_id : id ≡ task_id =
            sym (k id old found) ∙ sym same_id ∙ eq-of_== new.task_id task_id same in
          let is_old : l.new ≡ old = cc (l.kept, found, at_id) in
          record {
            new = new;
            kept = rw (lookup-insert, same) refl;
            same_tenant = cc (same_tenant, is_old, l.same_tenant);
            same_request = cc (same_request, is_old, l.same_request);
            path = goes (subst (λ u. Goes t.state u.state) is_old l.path) goes_on;
          }
      | inr other ↦ record {
        new = l.new;
        kept = rw (lookup-insert, other) l.kept;
        same_tenant = l.same_tenant;
        same_request = l.same_request;
        path = l.path;
      }
    ]

store-Later_other :
    (t new : TaskRecord) (task_id : String) (c : Controller)
    → lookup new.task_id c.tasks ≡ none
    → Later t task_id c.tasks
    → Later t task_id (insert new.task_id new c.tasks)
store-Later_other t new task_id c absent l = record {
  new = l.new;
  kept =
      lookup-insert_ne new.task_id task_id new c.tasks (λ same. cc (absent, l.kept, same)) ∙ l.kept;
  same_tenant = l.same_tenant;
  same_request = l.same_request;
  path = l.path;
}

-- A new task is not kept under an identifier that is in use.
abbrev pub IsFresh : Op → Controller → Type 0
IsFresh op c = (id : String) → new_id op ≡ some id → lookup id c.tasks ≡ none

module _ (h : Hashes) (s : Signer) where
  pub Effect-IsKeyed : (op : Op) (c c' : Controller) → IsKeyed c → Effect h s op c c' → IsKeyed c'
  unfolding audit
  Effect-IsKeyed op c c' k unchanged = k
  Effect-IsKeyed op c c' k (added now fresh _ _) = store-IsKeyed fresh c k
  Effect-IsKeyed op c c' k (moved now id old new action details _ _ _ _ _ _) = store-IsKeyed new c k
  Effect-IsKeyed op c c' k (registered r new _) = k
  Effect-IsKeyed op c c' k (opened v) = k
  Effect-IsKeyed op c c' k (ran now id token d task claims left x _ _ _) =
      store-IsKeyed (record task { state = executing }) c k

  pub Effect-Later :
      (t : TaskRecord) (task_id : String) (op : Op) (c c' : Controller)
      → IsFresh op c
      → IsKeyed c
      → Later t task_id c.tasks
      → Effect h s op c c'
      → Later t task_id c'.tasks
  unfolding audit
  Effect-Later t task_id op c c' f k l unchanged = l
  Effect-Later t task_id op c c' f k l (added now fresh _ is_new) =
      store-Later_other t fresh task_id c (f fresh.task_id is_new) l
  Effect-Later t task_id op c c' f k l
        (moved now id old new action details found goes_on same_id same_tenant _ same_request) =
      store-Later t old new id task_id c k found same_id same_tenant same_request goes_on l
  Effect-Later t task_id op c c' f k l (registered r new _) = l
  Effect-Later t task_id op c c' f k l (opened v) = l
  Effect-Later t task_id op c c' f k l (ran now id token d task claims left x found goes_on _) =
      store-Later t task (record task { state = executing }) id task_id c k found refl refl refl
        goes_on l

  -- What a tenant's key stands for, once it is used.
  pub Effect-known :
      (key : String × String) (known : String × String) (op : Op) (c c' : Controller)
      → lookup key c.idempotency ≡ some known
      → Effect h s op c c'
      → lookup key c'.idempotency ≡ some known
  unfolding audit
  Effect-known key known op c c' e unchanged = e
  Effect-known key known op c c' e (added now fresh unused _) =
      lookup-insert_ne (fresh.tenant_id, fresh.idempotency_key_hash) key _ c.idempotency
        (λ same. cc (e, unused, same))
      ∙ e
  Effect-known key known op c c' e (moved now id old new action details _ _ _ _ _ _) = e
  Effect-known key known op c c' e (registered r new _) = e
  Effect-known key known op c c' e (opened v) = e
  Effect-known key known op c c' e (ran now id token d task claims left x _ _ _) = e
