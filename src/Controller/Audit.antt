-- ===== src/Controller/Audit.antt =====
-- The audit trail of app/core/controller.py: `_audit` over any calls.
use codestra_middleware.Base.{
  ℕ, ◌+◌, ◌≡◌, refl, subst, some, List, [], ◌∷◌, ◌++◌, String, string_eq, pair_eq, ◌==◌, lookup,
  lookup_or, length, arith, lookup-insert, Bool-cases, Option-cases, inl, inr,
}
use codestra_middleware.Json.{Value}
use codestra_middleware.Controller.Screening.{IsMasked, redact-IsMasked}
use codestra_middleware.Controller.Tokens.{Signer}
use codestra_middleware.Controller.Tasks.{
  TaskRecord, AuditRecord, Hashes, Paths, Controller, audit, audited, last_hash, genesis,
}
use codestra_middleware.Controller.Runs.{
  Op, Effect, unchanged, added, moved, ran, registered, opened, run, run-keeps,
}

module _ (h : Hashes) where
  -- Each record has the next number, refers to the hash of the one before, carries its own hash, and
  -- holds nothing that ought to be masked.
  abbrev pub IsChain : String → ℕ → List AuditRecord → Type 0
  IsChain previous n [] = Unit
  IsChain previous n (r ∷ rs) =
      (r.entry.sequence ≡ n + 1)
      × (r.entry.previous_hash ≡ previous)
      × (r.record_hash ≡ h.of_entry r.entry)
      × IsMasked r.entry.details
      × IsChain r.record_hash (n + 1) rs

  pub record IsAudited (c : Controller) : Type 0 where
    pub chains :
        (task_id : String) (records : List AuditRecord)
        → lookup task_id c.audits ≡ some records
        → IsChain genesis 0 records

  IsChain-append :
      (previous : String) (n : ℕ) (rs : List AuditRecord) (r : AuditRecord)
      → IsChain previous n rs
      → r.entry.sequence ≡ n + length rs + 1
      → r.entry.previous_hash ≡ last_hash rs previous
      → r.record_hash ≡ h.of_entry r.entry
      → IsMasked r.entry.details
      → IsChain previous n (rs ++ r ∷ [])
  IsChain-append previous n [] r chain seq prev hash masked = (omega arith, prev, hash, masked, tt)
  IsChain-append previous n (x ∷ rs) r chain seq prev hash masked = (
    chain.0,
    chain.1,
    chain.2,
    chain.3,
    IsChain-append x.record_hash (n + 1) rs r chain.4 (omega arith) prev hash masked,
  )

  lookup_or-IsChain :
      (task_id : String) (c : Controller)
      → IsAudited c
      → IsChain genesis 0 (lookup_or task_id [] c.audits)
  lookup_or-IsChain task_id c a = elim (Option-cases (lookup task_id c.audits)) [
    | inl missing ↦ rw missing tt
    | inr (rs, e) ↦ rw e (a.chains task_id rs e)
  ]

  -- A new record extends the chain of its task.
  audit-IsAudited :
      (now : ℕ) (task : TaskRecord) (action : String) (details : Value) (c : Controller)
      → IsAudited c
      → IsAudited (audit h now task action details c)
  unfolding audit audited
  audit-IsAudited now task action details c a = record {
    chains = λ id records e. elim (Bool-cases (task.task_id == id)) [
      | inl same ↦
          let v : List AuditRecord = audited h now task action details c in
          let whole : v ≡ records = cc (rw (lookup-insert, same) at e) in
          subst (IsChain genesis 0) whole (
            IsChain-append genesis 0 (lookup_or task.task_id [] c.audits) _
              (lookup_or-IsChain task.task_id c a) (omega arith) refl refl
              (redact-IsMasked details).0)
      | inr other ↦ a.chains id records (rw (lookup-insert, other) at e)
    ];
  }

  Effect-IsAudited :
      (s : Signer) (op : Op) (c c' : Controller) → IsAudited c → Effect h s op c c' → IsAudited c'
  Effect-IsAudited s op c c' a unchanged = a
  Effect-IsAudited s op c c' a (added now fresh _ _) =
      audit-IsAudited now fresh _ _ _ (record { chains = a.chains })
  Effect-IsAudited s op c c' a (moved now task_id old new action details _ _ _ _ _ _) =
      audit-IsAudited now new action details _ (record { chains = a.chains })
  Effect-IsAudited s op c c' a (registered r new _) = record { chains = a.chains }
  Effect-IsAudited s op c c' a (opened v) = record { chains = a.chains }
  Effect-IsAudited s op c c' a (ran now task_id token d task claims left x _ _ _) =
      audit-IsAudited now _ _ _ _ (record { chains = a.chains })

  -- After any calls, each task's audit records are still a hash chain from the genesis hash: they
  -- are numbered from 1 without gaps, each refers to the hash of the one before and carries the hash
  -- of its own entry, and none holds a value that ought to be masked.
  pub run-IsAudited :
      (s : Signer) (fs : Paths) (roots : List String) (ops : List Op) (c : Controller)
      → IsAudited c
      → IsAudited (run h s fs roots ops c)
  run-IsAudited s fs roots = run-keeps h s fs roots IsAudited (Effect-IsAudited s)
