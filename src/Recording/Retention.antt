-- ===== src/Recording/Retention.antt =====
-- What makes a recording eligible for deletion (app/recording/retention.py).
use codestra_middleware.Base.{
  ℕ, ◌+◌, ◌≤◌, ◌≡◌, refl, Bool, true, false, not, Option, none, some, List, [], ◌∷◌, String,
  string_eq, all, lookup, arith, Option-cases, inl, inr,
}
use codestra_middleware.Clock.{days}
use codestra_middleware.Recording.{
  RecordingState, odoo_linked, Recording, retention_days, is_linked, first_blocker, blockers,
  decide_expiry, decide,
}

is_linked-eq : (s : RecordingState) → is_linked s ≡ true → s ≡ odoo_linked
is_linked-eq odoo_linked e = refl
is_linked-eq s e = cc e

expiry_sound :
    (r : Recording) (now : ℕ) (verified linked kept : Option ℕ)
    → (decide_expiry r now verified linked kept).eligible ≡ true
    → (v : ℕ) × (l : ℕ) × (k : ℕ) × (verified ≡ some v)
      × (linked ≡ some l)
      × (kept ≡ some k)
      × (v + days k ≤ now)
      × (l + days 7 ≤ now)
unfolding decide_expiry
expiry_sound r now (some v) (some l) (some k) e =
    (v, l, k, refl, refl, refl, ground arith, ground arith)
expiry_sound r now verified linked kept e = cc e

first_blocker-none :
    (xs : List (Bool × String)) → first_blocker xs ≡ none → all (λ x. not x.0) xs ≡ true
unfolding first_blocker
first_blocker-none [] e = refl
first_blocker-none ((true, reason) ∷ xs) e = cc e
first_blocker-none ((false, reason) ∷ xs) e = first_blocker-none xs e

blockers-free :
    (r : Recording)
    → first_blocker (blockers r) ≡ none
    → (is_linked r.state ≡ true) × (r.legal_hold ≡ false)
blockers-free r e = ground (arith, first_blocker-none (blockers r) e)

-- A recording is eligible for deletion only if it is linked and verified, is under no legal hold, has
-- a known retention class, and both its retention and the grace period since the link have passed; no
-- decision carries a deletion out.
pub decide_sound :
    (r : Recording) (now : ℕ)
    → (decide r now).eligible ≡ true
    → (r.state ≡ odoo_linked)
      × (r.legal_hold ≡ false)
      × ((v : ℕ) × (l : ℕ) × (k : ℕ) × (r.verified_at ≡ some v)
          × (r.odoo_linked_at ≡ some l)
          × (lookup r.retention_class retention_days ≡ some k)
          × (v + days k ≤ now)
          × (l + days 7 ≤ now))
unfolding decide
decide_sound r now e = elim (Option-cases (first_blocker (blockers r))) [
  | inl free ↦
      let passed = rw (decide, free) at e in
      let (linked, held) = blockers-free r free in
      (
        is_linked-eq r.state linked,
        held,
        expiry_sound r now r.verified_at r.odoo_linked_at (lookup r.retention_class retention_days)
            passed,
      )
  | inr (reason, blocked) ↦ cc (rw (decide, blocked) at e)
]
