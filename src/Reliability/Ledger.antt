-- ===== src/Reliability/Ledger.antt =====
-- The idempotency ledger of app/core/reliability.py over any number of registrations.
use codestra_middleware.Base.{
  ◌≡◌, ◌≢◌, ◌↔◌, refl, sym, ◌∙◌, ap, subst, true≢false, eq-of_==, ==_refl, Bool, true, false,
  Option, none, some, List, [], ◌∷◌, String, if◌then◌else◌, string_eq, pair_eq, ◌==◌, lookup,
  lookup-insert_self, lookup-insert_ne, Bool-cases, inl, inr,
}
use mathlib.Core.Path.{ap₂}
use codestra_middleware.Json.{Value}
use codestra_middleware.Reliability.{
  Texts, redact, canonical_hash, Entries, key_hash, register_as, register,
}

-- The arguments of a registration.
pub record Request : Type 0 where
  pub scope : String
  pub raw_key : String
  pub payload : Value
  pub event_id : String

abbrev verdict : Bool → String
verdict b = if b then "replay" else "conflict"

module _ (t : Texts) where
  abbrev pub submit : Request → Entries → String × Entries
  submit r entries = register t r.scope r.raw_key r.payload r.event_id entries

  abbrev pub run : List Request → Entries → Entries
  run [] entries = entries
  run (r ∷ rs) entries = run rs (submit r entries).1

  abbrev entry : Request → String × String
  entry r = (canonical_hash t (redact t r.payload), r.event_id)

  abbrev key : Request → String × String
  key r = (r.scope, key_hash t r.scope r.raw_key)

  register_as-keeps :
      (k j e f : String × String) (entries : Entries) (o : Option (String × String))
      → lookup k entries ≡ o
      → lookup j entries ≡ some f
      → lookup j (register_as k e entries o).1 ≡ some f
  unfolding register_as
  register_as-keeps k j e f entries none unused known =
      lookup-insert_ne k j e entries (λ same. cc (unused, known, same)) ∙ known
  register_as-keeps k j e f entries (some x) used known = known

  run-keeps :
      (rs : List Request) (j f : String × String) (entries : Entries)
      → lookup j entries ≡ some f
      → lookup j (run rs entries) ≡ some f
  unfolding register
  run-keeps [] j f entries known = known
  run-keeps (r ∷ rs) j f entries known =
      run-keeps rs j f (submit r entries).1
        (register_as-keeps (key r) j (entry r) f entries (lookup (key r) entries) refl known)

  submit-known :
      (r : Request) (f : String × String) (entries : Entries)
      → lookup (key r) entries ≡ some f
      → submit r entries ≡ (verdict (f == entry r), entries)
  unfolding register register_as
  submit-known r f entries known = rw known refl

  first-known :
      (r : Request) (entries : Entries)
      → lookup (key r) entries ≡ none
      → lookup (key r) (submit r entries).1 ≡ some (entry r)
  unfolding register register_as
  first-known r entries unused = rw unused (lookup-insert_self (key r) (entry r) entries)

  first-created :
      (r : Request) (entries : Entries)
      → lookup (key r) entries ≡ none
      → (submit r entries).0 ≡ "created"
  unfolding register register_as
  first-created r entries unused = rw unused refl

  replay_iff : (e f : String × String) → (verdict (e == f) ≡ "replay") ↔ ((e.0 ≡ f.0) × (e.1 ≡ f.1))
  replay_iff e f = elim (Bool-cases (e == f)) [
    | inl same ↦
        let eq = eq-of_== e f same in (λ _. (ap (λ x. x.0) eq, ap (λ x. x.1) eq), λ _. rw same refl)
    | inr other ↦ (
      λ h. cc (rw other at h),
      λ h. absurd (true≢false (sym (rw (h.0, h.1) (==_refl f)) ∙ other)),
    )
  ]

  not_replay : (b : Bool) → verdict b ≢ "replay" → verdict b ≡ "conflict"
  not_replay true h = absurd (h refl)
  not_replay false h = refl

  -- The first registration of a key in a scope is created. After any further registrations, one of
  -- the same scope and key changes nothing; it is a replay if and only if it carries the same event
  -- and, once redacted, a payload with the same hash, and is a conflict otherwise.
  pub register_once :
      (r q : Request) (rs : List Request) (entries : Entries)
      → lookup (r.scope, key_hash t r.scope r.raw_key) entries ≡ none
      → q.scope ≡ r.scope
      → q.raw_key ≡ r.raw_key
      → ((submit r entries).0 ≡ "created")
        × ((submit q (run rs (submit r entries).1)).1 ≡ run rs (submit r entries).1)
        × (((submit q (run rs (submit r entries).1)).0 ≡ "replay") ↔ (
            (canonical_hash t (redact t r.payload) ≡ canonical_hash t (redact t q.payload))
            × (r.event_id ≡ q.event_id)))
        × (((submit q (run rs (submit r entries).1)).0 ≢ "replay")
            → (submit q (run rs (submit r entries).1)).0 ≡ "conflict")
  register_once r q rs entries unused same_scope same_key =
      let later = run rs (submit r entries).1 in
      let known : lookup (key r) later ≡ some (entry r) =
        run-keeps rs (key r) (entry r) (submit r entries).1 (first-known r entries unused) in
      let same : key q ≡ key r = ap₂ (λ s k. (s, key_hash t s k)) same_scope same_key in
      let answer = submit-known q (entry r) later (ap (λ k. lookup k later) same ∙ known) in
      (
        first-created r entries unused,
        ap (λ x. x.1) answer,
        subst
            (λ x. (x.0 ≡ "replay") ↔ (
              (canonical_hash t (redact t r.payload) ≡ canonical_hash t (redact t q.payload))
              × (r.event_id ≡ q.event_id)))
            (sym answer) (replay_iff (entry r) (entry q)),
        subst (λ x. x.0 ≢ "replay" → x.0 ≡ "conflict") (sym answer)
            (not_replay (entry r == entry q)),
      )
