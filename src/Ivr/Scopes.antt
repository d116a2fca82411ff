-- ===== src/Ivr/Scopes.antt =====
-- Where a session of the voice menu (app/core/ivr.py) can be routed after any keys.
use codestra_middleware.Base.{
  ◌≡◌, refl, sym, ap, subst, ◌∙◌, ◌⊎◌, inl, inr, Bool, true, false, not, ◌||◌, List, [], ◌∷◌,
  Option, none, some, String, ok, lookup, contains, ◌==◌, eq-of_==, string_eq, Bool-cases,
  if◌then◌else◌, arith,
}
use codestra_middleware.Ivr.{
  Destination, IvrSession, select_entry, select_main, is_lock, validate_destination,
  appointment_lookup, unclear, approved_intents, Confidence, Intent, classify_intent,
}

-- The session after the keys, from the first to the last.
unfoldable pub press : List String → IvrSession → IvrSession
press [] s = s
press (k ∷ ks) s = press ks (select_main s k)

-- The unit and the campaign of a key that has them.
abbrev pub chosen : String → Option (String × String)
chosen k =
    if "1" == k
    then some ("TL", "TL-GENERAL")
    else if "2" == k
    then some ("DEV", "DEV-GENERAL")
    else if "3" == k
    then some ("SCP", "SCP-GENERAL")
    else none

abbrev pub later_choice :
    Option (String × String) → Option (String × String) → Option (String × String)
later_choice first none = first
later_choice first (some c) = some c

-- The last choice among the keys.
abbrev pub last_choice : List String → Option (String × String)
last_choice [] = none
last_choice (k ∷ ks) = later_choice (chosen k) (last_choice ks)

abbrev Scope : Type 0
Scope = String × Option String

abbrev scope : IvrSession → Scope
scope s = (s.business_unit, s.campaign_lock)

abbrev after_choice : Scope → Option (String × String) → Scope
after_choice c none = c
after_choice c (some d) = (d.0, some d.1)

at_key :
    (s : IvrSession) (key k : String)
    → (key == k) ≡ true
    → scope (select_main s key) ≡ after_choice (scope s) (chosen key)
    → scope (select_main s k) ≡ after_choice (scope s) (chosen k)
at_key s key k same e =
    subst (λ x. scope (select_main s x) ≡ after_choice (scope s) (chosen x)) (eq-of_== key k same) e

select_main-scope :
    (s : IvrSession) (k : String) → scope (select_main s k) ≡ after_choice (scope s) (chosen k)
unfolding select_main select_entry lookup
select_main-scope s k = elim (Bool-cases ("1" == k)) [
  | inl same ↦ at_key s "1" k same refl
  | inr other_1 ↦ elim (Bool-cases ("2" == k)) [
    | inl same ↦ at_key s "2" k same refl
    | inr other_2 ↦ elim (Bool-cases ("3" == k)) [
      | inl same ↦ at_key s "3" k same refl
      | inr other_3 ↦ elim (Bool-cases ("4" == k)) [
        | inl same ↦ at_key s "4" k same refl
        | inr other_4 ↦ elim (Bool-cases ("5" == k)) [
          | inl same ↦ at_key s "5" k same refl
          | inr other_5 ↦ elim (Bool-cases ("9" == k)) [
            | inl same ↦ at_key s "9" k same refl
            | inr other_9 ↦ elim (Bool-cases ("0" == k)) [
              | inl same ↦ at_key s "0" k same refl
              | inr other_0 ↦
                  rw (other_1, other_2, other_3, other_4, other_5, other_9, other_0) refl
            ]
          ]
        ]
      ]
    ]
  ]
]

after_both :
    (c : Scope) (a b : Option (String × String))
    → after_choice (after_choice c a) b ≡ after_choice c (later_choice a b)
after_both c a none = refl
after_both c a (some d) = refl

press-scope :
    (ks : List String) (s : IvrSession)
    → scope (press ks s) ≡ after_choice (scope s) (last_choice ks)
unfolding press
press-scope [] s = refl
press-scope (k ∷ ks) s =
    press-scope ks (select_main s k)
    ∙ ap (λ c. after_choice c (last_choice ks)) (select_main-scope s k)
    ∙ after_both (scope s) (chosen k) (last_choice ks)

-- A session whose last choice was this unit and this campaign.
abbrev IsIn : String → String → IvrSession → Type 0
IsIn unit campaign s = (s.business_unit ≡ unit) × (s.campaign_lock ≡ some campaign)

press-IsIn :
    (ks : List String) (s : IvrSession) (unit campaign : String)
    → last_choice ks ≡ some (unit, campaign)
    → IsIn unit campaign (press ks s)
press-IsIn ks s unit campaign e =
    let h = press-scope ks s ∙ ap (after_choice (scope s)) e in (ap (λ c. c.0) h, ap (λ c. c.1) h)

either_false : (a b : Bool) → not a || not b ≡ false → (a ≡ true) × (not b ≡ false)
either_false a b e = ground arith

module _ (unit campaign : String) (s : IvrSession) (i : IsIn unit campaign s) where
  unit_is : (u : String) → (not (s.business_unit == u) ≡ false) → u ≡ unit
  unit_is u e = sym (eq-of_== s.business_unit u (ground arith)) ∙ i.0

  campaign_is : (c : String) → (not (is_lock s.campaign_lock c) ≡ false) → c ≡ campaign
  campaign_is c e = sym (eq-of_== campaign c (ground (arith, i.1)))

  destination-in :
      (d : Destination)
      → validate_destination d s ≡ ok tt
      → (d.business_unit ≡ unit) × (d.campaign ≡ campaign) × (d.active ≡ false)
  unfolding validate_destination
  destination-in d e =
      let g : (not (s.business_unit == d.business_unit) ≡ false)
          × (not (is_lock s.campaign_lock d.campaign) ≡ false)
          × (d.active ≡ false) =
        ground arith in
      (unit_is d.business_unit g.0, campaign_is d.campaign g.1, g.2)

  appointment-in :
      (state u c : String) (r : String × String × String)
      → appointment_lookup state u c s ≡ ok r
      → (u ≡ unit) × (c ≡ campaign)
  unfolding appointment_lookup
  appointment-in state u c r e =
      let g : (not (s.business_unit == u) ≡ false) × (not (is_lock s.campaign_lock c) ≡ false) =
        ground arith in
      (unit_is u g.0, campaign_is c g.1)

  intent-in :
      (intent : String) (confidence : Confidence) (u c : String) (r : Intent)
      → classify_intent intent confidence s u c ≡ ok r
      → (r.intent ≡ none) ⊎ ((u ≡ unit) × (c ≡ campaign))
  unfolding classify_intent
  intent-in intent confidence u c r e =
      elim (Bool-cases (not (contains intent approved_intents) || not confidence.in_range)) [
        | inl unknown ↦
            let is : unclear ≡ r = cc (rw unknown at e) in inl (ap (λ x. x.intent) (sym is))
        | inr clear ↦
            elim (Bool-cases (not (u == s.business_unit) || not (is_lock s.campaign_lock c))) [
              | inl crosses ↦ absurd (cc (rw (clear, crosses) at e))
              | inr inside ↦
                  let g = either_false (u == s.business_unit) (is_lock s.campaign_lock c) inside in
                  inr (eq-of_== u s.business_unit g.0 ∙ i.0, campaign_is c g.1)
            ]
      ]

-- After any keys, what is accepted for a session stays with the unit and the campaign that the caller
-- chose last: a destination that passes is theirs and is not active, an appointment is looked up in
-- their scope only, and the intent that an AI proposes is either dropped or in their scope.
pub accepted_in_scope :
    (ks : List String) (s : IvrSession) (unit campaign : String)
    → last_choice ks ≡ some (unit, campaign)
    → ((d : Destination)
        → validate_destination d (press ks s) ≡ ok tt
        → (d.business_unit ≡ unit) × (d.campaign ≡ campaign) × (d.active ≡ false))
      × ((state u c : String) (r : String × String × String)
          → appointment_lookup state u c (press ks s) ≡ ok r
          → (u ≡ unit) × (c ≡ campaign))
      × ((intent : String) (confidence : Confidence) (u c : String) (r : Intent)
          → classify_intent intent confidence (press ks s) u c ≡ ok r
          → (r.intent ≡ none) ⊎ ((u ≡ unit) × (c ≡ campaign)))
accepted_in_scope ks s unit campaign e =
    let i = press-IsIn ks s unit campaign e in
    (
      destination-in unit campaign (press ks s) i,
      appointment-in unit campaign (press ks s) i,
      intent-in unit campaign (press ks s) i,
    )
