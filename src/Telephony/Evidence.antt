-- ===== src/Telephony/Evidence.antt =====
-- The evidence of an audit in plain terms (app/core/telephony.py): which sources have reported, and what
-- they show.
use codestra_middleware.Base.{
  ℕ, ◌≡◌, ◌≢◌, ◌↔◌, All, subst, refl, sym, ◌∙◌, ap, true, false, not, some, List, [], ◌∷◌, map,
  String, contains, select, nat_eq, string_eq, ◌==◌, ==_iff, none, Option, Dict, lookup, arith,
  Bool-cases, inl, inr, true≢false,
}
use codestra_middleware.Text.{upper}
use codestra_middleware.Telephony.{
  active_markers, assigned_markers, reserved_markers, historical_markers, collision_markers,
  clear_values, normalized, is_clear,
}

-- No value of the evidence is one of the markers.
abbrev pub IsFree : List String → Dict String String → Type 0
IsFree markers evidence =
    (key value : String) → lookup key evidence ≡ some value → contains value markers ≡ false

pub not_fixed : (n : ℕ) → (contains n (1001 ∷ 6101 ∷ []) ≡ false) ↔ ((n ≢ 1001) × (n ≢ 6101))
not_fixed n = ground arith

lookup-normalized :
    (key value : String) (d : Dict String String)
    → lookup key d ≡ some value
    → lookup key (normalized d) ≡ some (upper value)
unfolding lookup
lookup-normalized key value [] e = cc
lookup-normalized key value ((k, v) ∷ d) e = elim (Bool-cases (k == key)) [
  | inl same ↦ let is : v ≡ value = cc (rw same at e) in rw same (ap (λ x. some (upper x)) is)
  | inr other ↦ rw other (lookup-normalized key value d (rw other at e))
]

normalized-lookup :
    (key shown : String) (d : Dict String String)
    → lookup key (normalized d) ≡ some shown
    → (value : String) × (lookup key d ≡ some value) × (upper value ≡ shown)
unfolding lookup
normalized-lookup key shown [] e = cc
normalized-lookup key shown ((k, v) ∷ d) e = elim (Bool-cases (k == key)) [
  | inl same ↦ rw same (v, refl, cc (rw same at e))
  | inr other ↦ rw other (normalized-lookup key shown d (rw other at e))
]

-- The source has reported.
abbrev pub Reports : Dict String String → String → Type 0
Reports d source = (value : String) × (lookup source d ≡ some value)

==_swapped : (a b : String) → (a == b) ≡ false → (b == a) ≡ false
==_swapped a b e = ground (arith, ==_iff a b, ==_iff b a)

contains-Reports :
    (source : String) (d : Dict String String)
    → (contains source (map (λ e. e.0) (normalized d)) ≡ true) ↔ Reports d source
unfolding lookup
contains-Reports source [] = (λ e. cc, λ h. cc (h.1))
contains-Reports source ((k, v) ∷ d) = elim (Bool-cases (k == source)) [
  | inl same ↦
      let back : (source == k) ≡ true = (==_iff source k).1 (sym ((==_iff k source).0 same)) in
      rw (same, back) (λ _. (v, refl), λ _. refl)
  | inr other ↦
      let ih = contains-Reports source d in
      rw (other, ==_swapped k source other) (λ e. ih.0 e, λ h. ih.1 h)
]

pub select-none :
    (d : Dict String String) (sources : List String)
    → (select (λ source. not (contains source (map (λ e. e.0) (normalized d)))) sources ≡ [])
      ↔ All (Reports d) sources
select-none d [] = (λ _. tt, λ _. refl)
select-none d (source ∷ sources) =
    let ih = select-none d sources in
    let one = contains-Reports source d in
    elim (Bool-cases (contains source (map (λ e. e.0) (normalized d)))) [
      | inl there ↦ rw there (λ e. (one.0 there, ih.0 e), λ h. ih.1 h.1)
      | inr gone ↦ rw gone (λ e. cc e, λ h. absurd (true≢false (sym (one.1 h.0) ∙ gone)))
    ]

-- No value of the evidence is, in upper case, one of the values.
abbrev pub ShowsNone : List String → Dict String String → Type 0
ShowsNone values d =
    (key value : String) → lookup key d ≡ some value → contains (upper value) values ≡ false

pub IsFree-ShowsNone :
    (markers : List String) (d : Dict String String)
    → IsFree markers (normalized d) ↔ ShowsNone markers d
IsFree-ShowsNone markers d = (
  λ free key value known. free key (upper value) (lookup-normalized key value d known),
  λ free key shown known.
      let (value, found, is_shown) = normalized-lookup key shown d known in
      subst (λ x. contains x markers ≡ false) is_shown (free key value found),
)

pub five-one :
    (d : Dict String String)
    → (ShowsNone active_markers d
        × ShowsNone collision_markers d
        × ShowsNone historical_markers d
        × ShowsNone reserved_markers d
        × ShowsNone assigned_markers d)
      ↔ ShowsNone
          ("ACTIVE" ∷ "COLLISION" ∷ "CONFLICT" ∷ "HISTORICAL_HOLD" ∷ "AMBIGUOUS" ∷ "RESERVED"
            ∷ "LEASED" ∷ "ASSIGNED" ∷ "PRESENT" ∷ [])
          d
five-one d = (
  λ (a, c, h, r, s) key value known. ground (
    arith,
    a key value known,
    c key value known,
    h key value known,
    r key value known,
    s key value known,
  ),
  λ f. (
    λ key value known. ground (arith, f key value known),
    λ key value known. ground (arith, f key value known),
    λ key value known. ground (arith, f key value known),
    λ key value known. ground (arith, f key value known),
    λ key value known. ground (arith, f key value known),
  ),
)

-- The cooldown of the extension has ended.
abbrev pub HasCooledDown : Dict String String → Type 0
HasCooledDown d =
    (value : String) × (lookup "cooldown" d ≡ some value)
    × (contains (upper value) ("AVAILABLE" ∷ "ABSENT" ∷ "CLEAR" ∷ "NONE" ∷ []) ≡ true)

some_clear :
    (o : Option String)
    → is_clear o ≡ true
    → (shown : String) × (o ≡ some shown) × (contains shown clear_values ≡ true)
some_clear none e = cc
some_clear (some shown) e = (shown, refl, e)

pub HasCooledDown-iff :
    (d : Dict String String)
    → (is_clear (lookup "cooldown" (normalized d)) ≡ true) ↔ HasCooledDown d
HasCooledDown-iff d = (
  λ e.
      let (shown, found, clear) = some_clear (lookup "cooldown" (normalized d)) e in
      let (value, known, is_shown) = normalized-lookup "cooldown" shown d found in
      (value, known, subst (λ x. contains x clear_values ≡ true) (sym is_shown) clear),
  λ (value, known, clear).
      subst (λ o. is_clear o ≡ true) (sym (lookup-normalized "cooldown" value d known)) clear,
)
