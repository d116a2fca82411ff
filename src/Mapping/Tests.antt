-- ===== src/Mapping/Tests.antt =====
-- Concrete campaigns (app/core/vicidial_mapping.py).
use codestra_middleware.Base.{
  All, leb, Bool-cases, inl, inr, arith, if◌then◌else◌, ℕ, ◌<◌, ◌≡◌, ◌↔◌, refl, true, List, [], ◌∷◌,
  String, ok, err, contains, map, string_eq, pair_eq,
}
use codestra_middleware.Raised.{Raised}
use codestra_middleware.Text.{upper, lower, size, split_once, joined, decimal}
use codestra_middleware.Mapping.{
  is_canonical, is_canonical_split, candidate_at, material, take_chars, is_physical,
  CampaignIdentity, validate, allocate_from, physical_campaign_id, validate_from, validate_registry,
}
use codestra_middleware.Mapping.Validity.{IsValid}
use codestra_middleware.Mapping.Shape.{IsDigest}
use codestra_middleware.Mapping.Candidates.{IsGiven, physical_campaign_id_lem}
use codestra_middleware.Mapping.Registries.{IsDistinct, keys_of, ids_of, validate_registry_iff}

-- Digits in place of a hash: those of the number of characters.
abbrev digits : String → String
digits s = if leb 10 (size s) then "a0f3c9" else "00ff00"

digits-IsDigest : (s : String) → IsDigest (digits s)
unfolding size
digits-IsDigest s = elim (Bool-cases (leb 10 (size s))) [
  | inl long ↦ rw long (omega arith, (refl, (refl, (refl, (refl, (refl, (refl, tt)))))))
  | inr short ↦ rw short (omega arith, (refl, (refl, (refl, (refl, (refl, (refl, tt)))))))
]

abbrev reserved : List String
reserved = "cod00ff0" ∷ []

second_is_free : physical_campaign_id digits "COD-SALES" reserved 3 ≡ ok "CODA0F3C"
unfolding physical_campaign_id allocate_from upper candidate_at material split_once joined decimal
    size take_chars is_canonical_split
second_is_free = refl

physical_campaign_id_lem_example :
    ((id : String)
      → physical_campaign_id digits "COD-SALES" reserved 3 ≡ ok id
      → IsGiven digits "COD-SALES" (map upper reserved) 3 id)
    × ((e : Raised)
        → is_canonical "COD-SALES" ≡ true
        → physical_campaign_id digits "COD-SALES" reserved 3 ≡ err e
        → (n : ℕ) → n < 3
        → contains (candidate_at digits "COD-SALES" n) (map upper reserved) ≡ true)
physical_campaign_id_lem_example =
    physical_campaign_id_lem digits "COD-SALES" reserved 3 digits-IsDigest

abbrev campaign : String → String → CampaignIdentity
campaign code id = record {
  environment = "Staging";
  business_unit_code = "COD";
  canonical_campaign_code = code;
  vicidial_campaign_id = id;
  mapping_version = 1;
  active = true;
}

abbrev registry : List CampaignIdentity
registry = campaign "COD-A" "COD00000" ∷ campaign "COD-B" "COD11111" ∷ []

registry_passes : validate_registry registry ≡ ok tt
unfolding validate_registry validate_from validate lower split_once is_canonical_split is_physical
    size
registry_passes = refl

validate_registry_iff_example :
    (validate_registry registry ≡ ok tt)
    ↔ (All IsValid registry × IsDistinct (keys_of registry) × IsDistinct (ids_of registry))
validate_registry_iff_example = validate_registry_iff registry
