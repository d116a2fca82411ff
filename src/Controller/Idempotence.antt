-- ===== src/Controller/Idempotence.antt =====
-- Tasks and keys over a run of the controller (app/core/controller.py).
use codestra_middleware.Base.{
  ℕ, ◌≡◌, refl, sym, ◌∙◌, ap, Bool, true, false, not, Option, none, some, List, [], ◌∷◌, String, ok,
  ◌==◌, string_eq, pair_eq, lookup, arith, ==_refl, eq-of_==, >>=-elim, raise_if-elim,
  lookup-insert_self,
}
use codestra_middleware.Controller.Tokens.{Signer}
use codestra_middleware.Controller.Tasks.{
  TaskState, completed, failed, cancelled, dead_letter, TaskBody, TaskRecord, Hashes, Paths,
  Controller, validate_workspace, find_task, audit,
}
use codestra_middleware.Controller.Operations.{is_finished, add_task, reuse_or_add, create_task}
use codestra_middleware.Controller.Runs.{Op, apply, run, apply-Effect, leads, find_task-lookup}
use codestra_middleware.Controller.Histories.{
  Goes, stays, goes, IsKeyed, Later, IsFresh, Effect-IsKeyed, Effect-Later, Effect-known,
}

leads-not_finished : (s t : TaskState) → is_finished s ≡ true → leads s t ≡ false
unfolding leads
leads-not_finished completed cancelled e = refl
leads-not_finished completed t e = refl
leads-not_finished failed cancelled e = refl
leads-not_finished failed t e = refl
leads-not_finished cancelled cancelled e = refl
leads-not_finished cancelled t e = refl
leads-not_finished dead_letter cancelled e = refl
leads-not_finished dead_letter t e = refl
leads-not_finished s t e = cc

Goes-finished : {s t : TaskState} → is_finished s ≡ true → Goes s t → t ≡ s
Goes-finished e stays = refl
Goes-finished {s} e (goes {t = t} {u = u} g l) =
    let at_start = Goes-finished e g in cc (l, leads-not_finished t u (rw at_start e))

module _ (h : Hashes) (s : Signer) (fs : Paths) (roots : List String) where
  -- Each identifier that a new task takes in the run is fresh when it is drawn.
  abbrev pub AreFresh : List Op → Controller → Type 0
  AreFresh [] c = Unit
  AreFresh (op ∷ ops) c = IsFresh op c × AreFresh ops (apply h s fs roots op c)

  run-IsKeyed : (ops : List Op) (c : Controller) → IsKeyed c → IsKeyed (run h s fs roots ops c)
  unfolding run
  run-IsKeyed [] c k = k
  run-IsKeyed (op ∷ ops) c k =
      run-IsKeyed ops _ (Effect-IsKeyed h s op c _ k (apply-Effect h s fs roots op c))

  run-Later :
      (t : TaskRecord) (task_id : String) (ops : List Op) (c : Controller)
      → IsKeyed c
      → AreFresh ops c
      → Later t task_id c.tasks
      → Later t task_id (run h s fs roots ops c).tasks
  unfolding run
  run-Later t task_id [] c k f l = l
  run-Later t task_id (op ∷ ops) c k f l =
      let e = apply-Effect h s fs roots op c in
      run-Later t task_id ops (apply h s fs roots op c) (Effect-IsKeyed h s op c _ k e) f.1
        (Effect-Later h s t task_id op c _ f.0 k l e)

  run-known :
      (key known : String × String) (ops : List Op) (c : Controller)
      → lookup key c.idempotency ≡ some known
      → lookup key (run h s fs roots ops c).idempotency ≡ some known
  unfolding run
  run-known key known [] c e = e
  run-known key known (op ∷ ops) c e =
      run-known key known ops _
        (Effect-known h s key known op c _ e (apply-Effect h s fs roots op c))

  -- No call ever loses a task, moves it to another tenant or changes what it was asked: after any
  -- calls it is there, in a state that its own one leads to (from created to awaiting approval, to
  -- approved, to executing, or from an unfinished state to cancelled).
  pub run_keeps_tasks :
      (task_id : String) (t : TaskRecord) (ops : List Op) (c : Controller)
      → IsKeyed c
      → AreFresh ops c
      → lookup task_id c.tasks ≡ some t
      → Later t task_id (run h s fs roots ops c).tasks
  run_keeps_tasks task_id t ops c k f e =
      run-Later t task_id ops c k f
        (record { new = t; kept = e; same_tenant = refl; same_request = refl; path = stays })

  -- A finished task (completed, failed, cancelled or dead letter) keeps its state for ever.
  pub run_keeps_finished :
      (task_id : String) (t : TaskRecord) (ops : List Op) (c : Controller)
      → IsKeyed c
      → AreFresh ops c
      → lookup task_id c.tasks ≡ some t
      → is_finished t.state ≡ true
      → (u : TaskRecord) × (lookup task_id (run h s fs roots ops c).tasks ≡ some u)
        × (u.state ≡ t.state)
  run_keeps_finished task_id t ops c k f e finished =
      let l = run_keeps_tasks task_id t ops c k f e in
      (l.new, l.kept, Goes-finished finished l.path)

  -- A tenant's key stands for a request and for a task of the tenant.
  abbrev Stands : String × String → String → String → TaskRecord → Controller → Type 0
  Stands key request_hash id t c =
      (lookup key c.idempotency ≡ some (request_hash, id))
      × (lookup id c.tasks ≡ some t)
      × (t.tenant_id ≡ key.0)

  reuse_or_add-Stands :
      (now : ℕ) (fresh : TaskRecord) (c c' : Controller) (task : TaskRecord) (replay : Bool)
      (prior : Option (String × String))
      → lookup (fresh.tenant_id, fresh.idempotency_key_hash) c.idempotency ≡ prior
      → reuse_or_add h now fresh c prior ≡ ok ((task, replay), c')
      → (id : String) × Stands
          (fresh.tenant_id, fresh.idempotency_key_hash)
          fresh.request_hash
          id
          task
          c'
  unfolding reuse_or_add audit
  reuse_or_add-Stands now fresh c c' task replay none known e =
      let same : fresh ≡ task = cc e in
      let left : add_task h now fresh c ≡ c' = cc e in
      (
        fresh.task_id,
        (
          ap (λ d. lookup (fresh.tenant_id, fresh.idempotency_key_hash) d.idempotency) (sym left)
              ∙ lookup-insert_self (fresh.tenant_id, fresh.idempotency_key_hash) _ c.idempotency,
          ap (λ d. lookup fresh.task_id d.tasks) (sym left)
              ∙ lookup-insert_self fresh.task_id fresh c.tasks
              ∙ ap some same,
          ap (λ t. t.tenant_id) (sym same),
        ),
      )
  reuse_or_add-Stands now fresh c c' task replay (some prior) known e =
      raise_if-elim (not (prior.0 == fresh.request_hash)) _ _ e λ agree e₁.
        >>=-elim (find_task prior.1 fresh.tenant_id c) _ e₁ λ old found e₂.
          let same : old ≡ task = cc e₂ in
          let left : c ≡ c' = cc e₂ in
          let request : prior.0 ≡ fresh.request_hash = eq-of_== _ _ (ground arith) in
          let (kept, tenant) = find_task-lookup prior.1 fresh.tenant_id c old found in
          (
            prior.1,
            (
              ap (λ d. lookup (fresh.tenant_id, fresh.idempotency_key_hash) d.idempotency)
                    (sym left)
                  ∙ known
                  ∙ ap (λ r. some (r, prior.1)) request,
              ap (λ d. lookup prior.1 d.tasks) (sym left) ∙ kept ∙ ap some same,
              ap (λ t. t.tenant_id) (sym same) ∙ tenant,
            ),
          )

  reuse_or_add-known :
      (now : ℕ) (fresh : TaskRecord) (c : Controller) (id : String) (t : TaskRecord)
      (prior : Option (String × String))
      → prior ≡ some (fresh.request_hash, id)
      → lookup id c.tasks ≡ some t
      → t.tenant_id ≡ fresh.tenant_id
      → reuse_or_add h now fresh c prior ≡ ok ((t, true), c)
  unfolding reuse_or_add find_task
  reuse_or_add-known now fresh c id t prior known kept tenant =
      rw known
        (rw (==_refl fresh.request_hash) (rw kept (rw tenant (rw (==_refl fresh.tenant_id) refl))))

  -- A creation that has succeeded is idempotent for ever: after any calls, the same request of the
  -- tenant under the same key makes nothing, leaves the controller as it is, and answers with the
  -- task of the first time, as it is by then.
  pub create_task_replays :
      (now later : ℕ) (task_id other_id : String) (body : TaskBody)
      (tenant_id request_id correlation_id request_id' correlation_id' key : String)
      (c c' : Controller) (task : TaskRecord) (replay : Bool) (ops : List Op)
      → IsKeyed c'
      → AreFresh ops c'
      → create_task h fs roots now task_id body tenant_id request_id correlation_id key c
        ≡ ok ((task, replay), c')
      → (t : TaskRecord) × (t.task_id ≡ task.task_id)
        × Goes task.state t.state
        × (create_task h fs roots later other_id body tenant_id request_id' correlation_id' key
              (run h s fs roots ops c')
            ≡ ok ((t, true), run h s fs roots ops c'))
  unfolding create_task
  create_task_replays now later task_id other_id body tenant_id request_id correlation_id
        request_id' correlation_id' key c c' task replay ops k f e =
      >>=-elim (validate_workspace fs roots body.workspace) _ e λ workspace inside e₁.
        let (id, (known, kept, tenant)) = reuse_or_add-Stands now _ c c' task replay _ refl e₁ in
        let l = run_keeps_tasks id task ops c' k f kept in
        (
          l.new,
          run-IsKeyed ops c' k id l.new l.kept ∙ sym (k id task kept),
          l.path,
          rw inside (
              reuse_or_add-known later _ (run h s fs roots ops c') id l.new _
                (run-known (tenant_id, h.sha256 key) _ ops c' known) l.kept
                (l.same_tenant ∙ tenant)),
        )
