-- ===== src/Mapping/Validity.antt =====
-- When a campaign is valid on its own, in plain terms (CampaignIdentity.validate of
-- app/core/vicidial_mapping.py).
use Prim.Native.Char.{Char, code}
use codestra_middleware.Base.{
  ℕ, ◌≤◌, ◌≡◌, ◌⊎◌, ◌↔◌, refl, sym, ap, subst, Bool, true, false, ◌&&◌, String, Option, none, some,
  ok, contains, ◌==◌, ==_iff, string_eq, arith, Bool-cases, inl, inr, ltb, leb, nat_beq,
}
use codestra_middleware.Text.{lower, size, split_once}
use codestra_middleware.Mapping.{
  CampaignIdentity, valid_environments, units, is_id_char, is_code_char, every_char,
  is_canonical_split, is_canonical, is_physical, first_part, unit_of, validate,
}

-- An upper case letter or a digit, by its code.
abbrev pub IsIdChar : ℕ → Type 0
IsIdChar n = ((65 ≤ n) × (n ≤ 90)) ⊎ ((48 ≤ n) × (n ≤ 57))

-- The same, or a dash.
abbrev pub IsCodeChar : ℕ → Type 0
IsCodeChar n = IsIdChar n ⊎ (n ≡ 45)

-- All characters of a text, by their codes.
abbrev pub AllOf : (ℕ → Type 0) → String → Type 0
AllOf P String.[] = Unit
AllOf P (String.◌∷◌ c s) = P (code c) × AllOf P s

both_iff : (a b : Bool) {P Q : Type 0} → (a ≡ true) ↔ P → (b ≡ true) ↔ Q → (a && b ≡ true) ↔ (P × Q)
both_iff true b f g = (λ e. (f.0 refl, g.0 e), λ h. g.1 h.1)
both_iff false b f g = (λ e. absurd (cc), λ h. f.1 h.0)

every_char_iff :
    (p : Char → Bool) (P : ℕ → Type 0)
    → ((c : Char) → (p c ≡ true) ↔ P (code c))
    → (s : String) → (every_char p s ≡ true) ↔ AllOf P s
unfolding every_char
every_char_iff p P one String.[] = (λ _. tt, λ _. refl)
every_char_iff p P one (String.◌∷◌ c s) =
    both_iff (p c) (every_char p s) (one c) (every_char_iff p P one s)

is_id_char_iff : (c : Char) → (is_id_char c ≡ true) ↔ IsIdChar (code c)
unfolding is_id_char
is_id_char_iff c = ground arith

is_code_char_iff : (c : Char) → (is_code_char c ≡ true) ↔ IsCodeChar (code c)
unfolding is_code_char is_id_char
is_code_char_iff c = ground arith

pub id_chars_iff : (s : String) → (every_char is_id_char s ≡ true) ↔ AllOf IsIdChar s
id_chars_iff s = every_char_iff is_id_char IsIdChar is_id_char_iff s

-- Eight upper case letters or digits.
abbrev pub IsPhysical : String → Type 0
IsPhysical id = (size id ≡ 8) × AllOf IsIdChar id

pub is_physical_iff : (id : String) → (is_physical id ≡ true) ↔ IsPhysical id
unfolding is_physical
is_physical_iff id =
    both_iff (nat_beq (size id) 8) (every_char is_id_char id) (ground arith)
      (every_char_iff is_id_char IsIdChar is_id_char_iff id)

-- One of the eight units.
abbrev pub IsUnit : String → Type 0
IsUnit u =
    (u ≡ "MOY")
    ⊎ ((u ≡ "COD")
        ⊎ ((u ≡ "SCP")
            ⊎ ((u ≡ "MBL") ⊎ ((u ≡ "RLP") ⊎ ((u ≡ "FTP") ⊎ ((u ≡ "TRX") ⊎ (u ≡ "CAL")))))))

pub IsUnit-iff : (u : String) → (contains u units ≡ true) ↔ IsUnit u
IsUnit-iff u = ground (
  arith,
  ==_iff u "MOY",
  ==_iff u "COD",
  ==_iff u "SCP",
  ==_iff u "MBL",
  ==_iff u "RLP",
  ==_iff u "FTP",
  ==_iff u "TRX",
  ==_iff u "CAL",
)

-- A code of the unit: the unit, a dash, and letters, digits or dashes.
abbrev pub IsCodeOf : String → String → Type 0
IsCodeOf unit canonical_code =
    (rest : String) × (split_once "-" canonical_code ≡ some (unit, rest))
    × IsUnit unit
    × (1 ≤ size rest)
    × AllOf IsCodeChar rest

IsCodeOf-split :
    (whole unit : String) (o : Option (String × String))
    → ((is_canonical_split o ≡ true) × ((first_part whole o == unit) ≡ true)) ↔ (
        (rest : String) × (o ≡ some (unit, rest))
        × IsUnit unit
        × (1 ≤ size rest)
        × AllOf IsCodeChar rest)
unfolding is_canonical_split
IsCodeOf-split whole unit none = (λ h. absurd (cc (h.0)), λ h. absurd (cc (h.1)))
IsCodeOf-split whole unit (some (u, rest)) =
    let chars = every_char_iff is_code_char IsCodeChar is_code_char_iff rest in
    let parts =
      both_iff (contains u units && leb 1 (size rest)) (every_char is_code_char rest)
        (both_iff (contains u units) (leb 1 (size rest)) {Q = 1 ≤ size rest} (IsUnit-iff u)
          (ground arith))
        chars in
    (
      λ (e, same).
          let ((is_unit, some_rest), all_code) = parts.0 e in
          let is : u ≡ unit = (==_iff u unit).0 same in
          (rest, ap (λ x. some (x, rest)) is, subst IsUnit is is_unit, some_rest, all_code),
      λ (rest', e, is_unit, some_rest, all_code).
          let is : u ≡ unit = cc in
          let is_rest : rest' ≡ rest = cc in
          (
            parts.1 (
              (subst IsUnit (sym is) is_unit, subst (λ x. 1 ≤ size x) is_rest some_rest),
              subst (AllOf IsCodeChar) is_rest all_code,
            ),
            (==_iff u unit).1 is,
          ),
    )

pub record IsValid (c : CampaignIdentity) : Type 0 where
  pub environment :
      (lower c.environment ≡ "development")
      ⊎ ((lower c.environment ≡ "staging") ⊎ (lower c.environment ≡ "production"))
  pub code_of_unit : IsCodeOf c.business_unit_code c.canonical_campaign_code
  pub physical : IsPhysical c.vicidial_campaign_id
  pub version : 1 ≤ c.mapping_version
  pub not_activated : lower c.environment ≡ "production" → c.active ≡ false

validate-guards :
    (c : CampaignIdentity)
    → (validate c ≡ ok tt) ↔ (
        (contains (lower c.environment) valid_environments ≡ true)
        × (is_canonical c.canonical_campaign_code ≡ true)
        × ((unit_of c.canonical_campaign_code == c.business_unit_code) ≡ true)
        × (is_physical c.vicidial_campaign_id ≡ true)
        × (ltb c.mapping_version 1 ≡ false)
        × (lower c.environment == "production" && c.active ≡ false))
unfolding validate
validate-guards c = ground arith

-- A campaign is valid on its own if and only if its environment is one of the three, in whatever case,
-- its code is one of its unit, its identifier in the dialer has eight upper case letters or digits, its
-- version is positive, and it is not active in production.
pub validate_iff : (c : CampaignIdentity) → (validate c ≡ ok tt) ↔ IsValid c
validate_iff c =
    let g = validate-guards c in
    let code_of =
      IsCodeOf-split c.canonical_campaign_code c.business_unit_code
        (split_once "-" c.canonical_campaign_code) in
    let id = is_physical_iff c.vicidial_campaign_id in
    let development = ==_iff (lower c.environment) "development" in
    let staging = ==_iff (lower c.environment) "staging" in
    let production = ==_iff (lower c.environment) "production" in
    (
      λ e.
          let (env, canonical, unit, physical, version, inactive) = g.0 e in
          record {
            environment = ground (arith, env, development, staging, production);
            code_of_unit = code_of.0 (canonical, unit);
            physical = id.0 physical;
            version = ground (arith, version);
            not_activated = λ p. let is = production.1 p in ground (arith, inactive, is);
          },
      λ v.
          let (canonical, unit) = code_of.1 v.code_of_unit in
          g.1 (
            ground (arith, v.environment, development, staging, production),
            canonical,
            unit,
            id.1 v.physical,
            ground (arith, v.version),
            elim (Bool-cases (lower c.environment == "production")) [
              | inl is ↦ let off = v.not_activated (production.0 is) in ground (arith, is, off)
              | inr other ↦ ground (arith, other)
            ],
          ),
    )
