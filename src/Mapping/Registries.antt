-- ===== src/Mapping/Registries.antt =====
-- Which registries of campaigns pass (app/core/vicidial_mapping.py).
use codestra_middleware.Base.{
  ◌≡◌, ◌↔◌, refl, sym, ap, subst, true≢false, eq-of_==, ==_refl, ◌∙◌, Bool, true, false, ◌||◌, List,
  [], ◌∷◌, String, ok, err, ◌>>◌, raise_if, contains, map, Eq, ◌==◌, All, string_eq, pair_eq, arith,
  Bool-cases, inl, inr, ⊤,
}
use codestra_middleware.Raised.{Raised, Outcome, value_error}
use codestra_middleware.Text.{lower}
use codestra_middleware.Mapping.Validity.{IsValid, validate_iff}
use codestra_middleware.Mapping.{
  CampaignIdentity, validate, canonical_key, validate_from, validate_registry,
}

neither : (a b : Bool) → (a || b ≡ false) ↔ ((a ≡ false) × (b ≡ false))
neither a b = ground arith

module _ {A : Type 0} ⦃e : Eq A⦄ where
  -- No element comes twice.
  abbrev pub IsDistinct : List A → Type 0
  IsDistinct [] = Unit
  IsDistinct (x ∷ xs) = (contains x xs ≡ false) × IsDistinct xs

  -- No element is among others.
  abbrev pub IsApart : List A → List A → Type 0
  IsApart ys xs = All (λ x. contains x ys ≡ false) xs

  ==_sym : (a b : A) → (a == b) ≡ (b == a)
  ==_sym a b = elim (Bool-cases (a == b)) [
    | inl same ↦ subst (λ c. (a == c) ≡ (c == a)) (eq-of_== a b same) refl
    | inr other ↦ elim (Bool-cases (b == a)) [
      | inl back ↦
          absurd (true≢false (sym (==_refl a) ∙ ap (λ c. a == c) (sym (eq-of_== b a back)) ∙ other))
      | inr apart ↦ other ∙ sym apart
    ]
  ]

  IsApart-more :
      (y : A) (ys xs : List A) → IsApart (y ∷ ys) xs ↔ ((contains y xs ≡ false) × IsApart ys xs)
  IsApart-more y ys [] = (λ h. (refl, tt), λ h. tt)
  IsApart-more y ys (x ∷ xs) =
      let ih = IsApart-more y ys xs in
      (
        λ h.
            let q = (neither (x == y) (contains x ys)).0 h.0 in
            let r = ih.0 h.1 in
            ((neither (y == x) (contains y xs)).1 (==_sym y x ∙ q.0, r.0), (q.1, r.1)),
        λ h.
            let q = (neither (y == x) (contains y xs)).0 h.0 in
            ((neither (x == y) (contains x ys)).1 (==_sym x y ∙ q.0, h.1.0), ih.1 (q.1, h.1.1)),
      )

-- What one round asks for.
round :
    (m : Outcome ⊤) (a b : Bool) (x y : Raised) (k : Outcome ⊤)
    → ((m >> (raise_if a x >> (raise_if b y >> k))) ≡ ok tt)
      ↔ ((m ≡ ok tt) × (a ≡ false) × (b ≡ false) × (k ≡ ok tt))
round (err e) a b x y k = (λ h. absurd (cc), λ h. absurd (cc (h.0)))
round (ok u) true b x y k = (λ h. absurd (cc), λ h. absurd (cc (h.1)))
round (ok u) false true x y k = (λ h. absurd (cc), λ h. absurd (cc (h.2)))
round (ok u) false false x y k = (λ h. (refl, refl, refl, h), λ h. h.3)

-- The environments, in lower case, with the codes.
abbrev pub keys_of : List CampaignIdentity → List (String × String)
keys_of cs = map (λ c. (lower c.environment, c.canonical_campaign_code)) cs

abbrev pub ids_of : List CampaignIdentity → List String
ids_of cs = map (λ c. c.vicidial_campaign_id) cs

abbrev AllPass : List CampaignIdentity → Type 0
AllPass cs = All (λ c. validate c ≡ ok tt) cs

validate_from_lem :
    (cs : List CampaignIdentity) (keys : List (String × String)) (ids : List String)
    → (validate_from cs keys ids ≡ ok tt) ↔ (
        AllPass cs
        × (IsApart keys (keys_of cs) × IsDistinct (keys_of cs))
        × (IsApart ids (ids_of cs) × IsDistinct (ids_of cs)))
unfolding validate_from
validate_from_lem [] keys ids = (λ h. (tt, (tt, tt), (tt, tt)), λ h. refl)
validate_from_lem (c ∷ cs) keys ids =
    let ih = validate_from_lem cs (canonical_key c ∷ keys) (c.vicidial_campaign_id ∷ ids) in
    let one =
      round (validate c) (contains (canonical_key c) keys) (contains c.vicidial_campaign_id ids)
        (value_error "duplicate canonical campaign in environment")
        (value_error "duplicate physical VICIdial campaign ID")
        (validate_from cs (canonical_key c ∷ keys) (c.vicidial_campaign_id ∷ ids)) in
    let more = IsApart-more (canonical_key c) keys (keys_of cs) in
    let more_ids = IsApart-more c.vicidial_campaign_id ids (ids_of cs) in
    (
      λ h.
          let q = one.0 h in
          let r = ih.0 q.3 in
          let k = more.0 r.1.0 in
          let i = more_ids.0 r.2.0 in
          ((q.0, r.0), ((q.1, k.1), (k.0, r.1.1)), ((q.2, i.1), (i.0, r.2.1))),
      λ h. one.1 (
        h.0.0,
        h.1.0.0,
        h.2.0.0,
        ih.1
            (h.0.1, (more.1 (h.1.1.0, h.1.0.1), h.1.1.1), (more_ids.1 (h.2.1.0, h.2.0.1), h.2.1.1)),
      ),
    )

none-IsApart : {A : Type 0} ⦃e : Eq A⦄ (xs : List A) → IsApart [] xs
none-IsApart [] = tt
none-IsApart (x ∷ xs) = (refl, none-IsApart xs)

All-IsValid : (cs : List CampaignIdentity) → AllPass cs ↔ All IsValid cs
All-IsValid [] = (λ _. tt, λ _. tt)
All-IsValid (c ∷ cs) =
    let one = validate_iff c in
    let rest = All-IsValid cs in (λ h. (one.0 h.0, rest.0 h.1), λ h. (one.1 h.0, rest.1 h.1))

-- A registry passes if and only if each of its records is valid on its own, no environment, compared in
-- lower case, has a canonical code twice, and no identifier in the dialer is given twice. A record is
-- valid if its environment is one of the three, in whatever case, its code is one of its unit, its
-- identifier has eight upper case letters or digits, its version is positive, and it is not active in
-- production.
pub validate_registry_iff :
    (records : List CampaignIdentity)
    → (validate_registry records ≡ ok tt)
      ↔ (All IsValid records × IsDistinct (keys_of records) × IsDistinct (ids_of records))
unfolding validate_registry
validate_registry_iff records =
    let h = validate_from_lem records [] [] in
    let valid = All-IsValid records in
    (
      λ e. let p = h.0 e in (valid.0 p.0, p.1.1, p.2.1),
      λ p. h.1 (
        valid.1 p.0,
        (none-IsApart (keys_of records), p.1),
        (none-IsApart (ids_of records), p.2),
      ),
    )
