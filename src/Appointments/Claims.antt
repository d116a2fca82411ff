-- ===== src/Appointments/Claims.antt =====
-- The ledger of claims of app/core/appointments.py over any number of claims.
use codestra_middleware.Base.{
  ◌≡◌, ◌≢◌, refl, ◌∙◌, Option, none, some, List, [], ◌∷◌, String, ok, err, string_eq, ◌==◌, ==_refl,
  ==_of_ne, Dict, lookup, insert, lookup-insert_self, lookup-insert_ne, Bool-cases, inl, inr,
}
use codestra_middleware.Raised.{Outcome, value_error}
use codestra_middleware.Appointments.{claim_as, claim}

-- The arguments of a claim.
pub record Claim (A : Type 0) : Type 0 where
  pub key : String
  pub body : String
  pub result : A

-- The results of the claims, with the hashes of their bodies.
abbrev pub Values : Type 0 → Type 0
Values A = Dict String (String × A)

module _ {A : Type 0} (sha256 : String → String) where
  abbrev pub after : Outcome (A × Values A) → Values A → Values A
  after (ok x) values = x.1
  after (err e) values = values

  abbrev pub submit : Claim A → Values A → Outcome (A × Values A)
  submit c values = claim sha256 c.key c.body c.result values

  abbrev pub run : List (Claim A) → Values A → Values A
  run [] values = values
  run (c ∷ cs) values = run cs (after (submit c values) values)

  claim_as-keeps :
      (k j digest : String) (result : A) (known : String × A) (values : Values A)
      (o : Option (String × A))
      → lookup k values ≡ o
      → lookup j values ≡ some known
      → lookup j (after (claim_as sha256 k digest result values o) values) ≡ some known
  unfolding claim_as
  claim_as-keeps k j digest result known values none unused found =
      lookup-insert_ne k j (digest, result) values (λ same. cc (unused, found, same)) ∙ found
  claim_as-keeps k j digest result known values (some prior) used found =
      elim (Bool-cases (prior.0 == digest)) [
        | inl same ↦ rw same found
        | inr other ↦ rw other found
      ]

  run-keeps :
      (cs : List (Claim A)) (j : String) (known : String × A) (values : Values A)
      → lookup j values ≡ some known
      → lookup j (run cs values) ≡ some known
  unfolding claim
  run-keeps [] j known values found = found
  run-keeps (c ∷ cs) j known values found = run-keeps cs j known (after (submit c values) values) (
      claim_as-keeps c.key j (sha256 c.body) c.result known values (lookup c.key values) refl found)

  -- The first claim of a key gets its own result. After any further claims, a claim of the key with a
  -- body of the same hash gets that first result, whatever it brings, one with another hash is
  -- refused, and neither changes the ledger.
  pub claim_once :
      (c d : Claim A) (cs : List (Claim A)) (values : Values A)
      → lookup c.key values ≡ none
      → d.key ≡ c.key
      → (values' : Values A) × (submit c values ≡ ok (c.result, values'))
        × (sha256 c.body ≡ sha256 d.body
            → submit d (run cs values') ≡ ok (c.result, run cs values'))
        × (sha256 c.body ≢ sha256 d.body
            → submit d (run cs values') ≡ err (value_error "idempotency conflict"))
  unfolding claim claim_as
  claim_once c d cs values unused same_key =
      let values' : Values A = insert c.key (sha256 c.body, c.result) values in
      let known =
        run-keeps cs c.key (sha256 c.body, c.result) values'
          (lookup-insert_self c.key (sha256 c.body, c.result) values) in
      (
        values',
        rw unused refl,
        λ same. rw (same_key, known, same, ==_refl (sha256 d.body)) refl,
        λ other. rw (same_key, known, ==_of_ne (sha256 c.body) (sha256 d.body) other) refl,
      )
