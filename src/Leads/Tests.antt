-- ===== src/Leads/Tests.antt =====
-- Concrete candidates (app/core/lead_reconciliation.py).
use codestra_middleware.Base.{
  ◌≡◌, refl, Bool, true, false, List, [], ◌∷◌, none, some, string_eq, nat_eq, pair_eq, ◌==◌, ◌||◌,
}
use codestra_middleware.Leads.{
  Candidate, unique_phone, resolved, unique, resolve_sets, resolve_pair, resolve_identity,
}
use codestra_middleware.Leads.Members.{SameMembers, resolve_identity-SameMembers}

abbrev anna : Candidate
anna = ("crm.lead", 7)

abbrev twice : List Candidate
twice = anna ∷ anna ∷ []

abbrev once : List Candidate
once = anna ∷ []

idempotent : (b : Bool) → (b || (b || false)) ≡ (b || false)
idempotent true = refl
idempotent false = refl

twice-SameMembers : SameMembers twice once
twice-SameMembers c = idempotent (c == anna)

twice_resolves : resolve_identity none none twice once ≡ resolved unique_phone (some anna) ""
unfolding resolve_identity resolve_sets unique resolve_pair
twice_resolves = refl

resolve_identity-SameMembers_example :
    resolve_identity none none twice once ≡ resolve_identity none none once once
resolve_identity-SameMembers_example =
    resolve_identity-SameMembers none none twice once once once twice-SameMembers (λ c. refl)
