-- ===== src/Sales/Compliance.antt =====
-- Who may be contacted (app/sales/compliance.py).
use codestra_middleware.Base.{
  ◌≡◌, ◌↔◌, refl, sym, ◌∙◌, Bool, true, false, not, Option, none, some, List, [], ◌∷◌, String,
  string_eq, ◌==◌, ==_iff, eq-of_==, true≢false, arith, any, Bool-cases, inl, inr,
}
use codestra_middleware.Sales.{
  ComplianceSnapshot, status_eligible, unavailable, first_active, suppressions, by_consent,
  by_suppression, evaluate,
}

first_active-none :
    (xs : List (Bool × String)) → (first_active xs ≡ none) ↔ (any (λ x. x.0) xs ≡ false)
unfolding first_active
first_active-none [] = (λ e. refl, λ e. refl)
first_active-none ((true, reason) ∷ xs) = (λ e. cc e, λ e. cc e)
first_active-none ((false, reason) ∷ xs) = first_active-none xs

-- Nothing in the snapshot forbids the contact.
abbrev pub IsClear : ComplianceSnapshot → Type 0
IsClear s =
    (s.available ≡ true)
    × (s.global_dnc ≡ false)
    × (s.tenant_dnc ≡ false)
    × (s.campaign_dnc ≡ false)
    × (s.email_suppressed ≡ false)
    × (s.phone_suppressed ≡ false)
    × (s.opted_out ≡ false)
    × (s.legal_restriction ≡ false)
    × (s.internal_suppression ≡ false)

by_consent-eligible :
    (s : ComplianceSnapshot) → ((by_consent s).status ≡ status_eligible) ↔ (s.consent ≡ "GRANTED")
by_consent-eligible s = elim (Bool-cases (s.consent == "GRANTED")) [
  | inl granted ↦
      let is_granted = eq-of_== s.consent "GRANTED" granted in
      (λ e. is_granted, λ e. rw is_granted refl)
  | inr other ↦ elim (Bool-cases (s.consent == "WITHDRAWN")) [
    | inl withdrawn ↦
        let is_withdrawn = eq-of_== s.consent "WITHDRAWN" withdrawn in
        (λ e. cc (rw is_withdrawn at e), λ e. cc (is_withdrawn, e))
    | inr unknown ↦ (
      λ e. cc (rw (other, unknown) at e),
      λ e. absurd (true≢false (sym ((==_iff s.consent "GRANTED").1 e) ∙ other)),
    )
  ]
]

by_suppression-eligible :
    (s : ComplianceSnapshot) (o : Option String)
    → ((by_suppression s o).status ≡ status_eligible) ↔ ((o ≡ none) × (s.consent ≡ "GRANTED"))
by_suppression-eligible s none = let c = by_consent-eligible s in (λ e. (refl, c.0 e), λ e. c.1 e.1)
by_suppression-eligible s (some reason) = (λ e. cc e, λ e. cc (e.0))

by_suppression-flags :
    (s : ComplianceSnapshot) (o : Option String)
    → (by_suppression s o).status ≡ status_eligible
    → ((by_suppression s o).is_blocked ≡ false)
      × ((by_suppression s o).needs_review ≡ not s.channel_eligible)
by_suppression-flags s none e = let granted = (by_consent-eligible s).0 e in rw granted (refl, refl)
by_suppression-flags s (some reason) e = cc e

suppressions-clear :
    (s : ComplianceSnapshot)
    → (first_active (suppressions s) ≡ none) ↔ (
        (s.email_suppressed ≡ false)
        × (s.phone_suppressed ≡ false)
        × (s.opted_out ≡ false)
        × (s.legal_restriction ≡ false)
        × (s.internal_suppression ≡ false))
suppressions-clear s = ground (arith, first_active-none (suppressions s))

-- A contact is eligible, or goes on to a review of its channel, if and only if the snapshot is of the
-- tenant and the campaign that ask, it is available, no do-not-call list, suppression, opt-out or
-- legal restriction applies, and consent is granted; and it goes ahead without a review if and only
-- if the channel is eligible too.
pub evaluate_iff :
    (s : ComplianceSnapshot) (tenant_id campaign_id : String)
    → (((evaluate s tenant_id campaign_id).status ≡ status_eligible) ↔ (
        (s.tenant_id ≡ tenant_id)
        × (s.campaign_id ≡ campaign_id)
        × (s.consent ≡ "GRANTED")
        × IsClear s))
      × ((evaluate s tenant_id campaign_id).status ≡ status_eligible
          → ((evaluate s tenant_id campaign_id).is_blocked ≡ false)
            × ((evaluate s tenant_id campaign_id).needs_review ≡ not s.channel_eligible))
unfolding evaluate unavailable
evaluate_iff s tenant_id campaign_id = (
  ground (
    arith,
    by_suppression-eligible s (first_active (suppressions s)),
    suppressions-clear s,
    ==_iff s.tenant_id tenant_id,
    ==_iff s.campaign_id campaign_id,
  ),
  λ e. ground (arith, by_suppression-flags s (first_active (suppressions s))),
)
