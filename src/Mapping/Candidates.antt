-- ===== src/Mapping/Candidates.antt =====
-- Which identifier a campaign gets in the dialer (app/core/vicidial_mapping.py).

use Prim.Native.String.{◌++◌ as append}
use codestra_middleware.Base.{
  if◌then◌else◌, ap, ◌∙◌, some, ℕ, zero, suc, ◌+◌, ◌≤◌, ◌<◌, ◌≡◌, ◌⊎◌, inl, inr, refl, sym, subst,
  nat_beq, nat_beq_iff, true, false, List, String, ok, err, contains, map, string_eq, arith,
  Bool-cases,
}
use codestra_middleware.Raised.{Raised, value_error}
use codestra_middleware.Text.{upper, split_once, joined, decimal}
use codestra_middleware.Mapping.Validity.{IsPhysical, IsUnit}
use codestra_middleware.Mapping.{
  candidate_at, take_chars, is_canonical, allocate_from, physical_campaign_id,
}
use codestra_middleware.Mapping.Shape.{
  IsDigest, unit-IsShort, canonical-IsUnit, candidate-IsPhysical, take_chars-append,
  candidate_at-parts,
}

module _ (sha256 : String → String) (canonical_code : String) (reserved : List String) where
  abbrev IsTaken : ℕ → Type 0
  IsTaken n = contains (candidate_at sha256 canonical_code n) reserved ≡ true

  -- The first attempt from `attempt` on whose candidate is free.
  pub record IsFirst (attempt limit : ℕ) (id : String) : Type 0 where
    pub number : ℕ
    pub within : number < limit
    pub given : id ≡ candidate_at sha256 canonical_code number
    pub free : contains id reserved ≡ false
    pub taken_before : (n : ℕ) → attempt ≤ n → n < number → IsTaken n

  from_next :
      (a limit : ℕ)
      → IsTaken a
      → ((n : ℕ) → suc a ≤ n → n < limit → IsTaken n)
      → (n : ℕ) → a ≤ n
      → n < limit
      → IsTaken n
  from_next a limit taken rest n h g = elim (Bool-cases (nat_beq n a)) [
    | inl same ↦ subst IsTaken (sym ((nat_beq_iff n a).0 same)) taken
    | inr other ↦ rest n (ground arith) g
  ]

  -- An allocation finds the first free candidate, or all of them are taken.
  allocates :
      (attempt left : ℕ)
      → ((id : String) × (allocate_from sha256 canonical_code reserved attempt left ≡ ok id)
          × IsFirst attempt (attempt + left) id)
        ⊎ ((allocate_from sha256 canonical_code reserved attempt left
              ≡ err (value_error "unable to allocate collision-free physical campaign ID"))
            × ((n : ℕ) → attempt ≤ n → n < attempt + left → IsTaken n))
  unfolding allocate_from
  allocates attempt zero = inr (refl, λ n h g. absurd (omega arith))
  allocates attempt (suc left) =
      elim (Bool-cases (contains (candidate_at sha256 canonical_code attempt) reserved)) [
        | inr free ↦ inl (
          candidate_at sha256 canonical_code attempt,
          rw free refl,
          record {
            number = attempt;
            within = omega arith;
            given = refl;
            free = free;
            taken_before = λ n h g. absurd (omega arith);
          },
        )
        | inl taken ↦ elim (allocates (suc attempt) left) [
          | inl found ↦ inl (
            found.0,
            rw taken found.1,
            record {
              number = found.2.number;
              within = omega (arith, found.2.within);
              given = found.2.given;
              free = found.2.free;
              taken_before = from_next attempt found.2.number taken found.2.taken_before;
            },
          )
          | inr none_free ↦ inr (
            rw taken none_free.0,
            λ n h g.
                from_next attempt (suc attempt + left) taken none_free.1 n h (omega (arith, g)),
          )
        ]
      ]

-- What an identifier that is given looks like: that of the first attempt whose candidate is free, made
-- of three characters of the code and five digits of a hash; it begins with the unit of the code and is
-- one that a campaign may have.
abbrev pub IsGiven : (String → String) → String → List String → ℕ → String → Type 0
IsGiven sha256 canonical_code reserved limit id =
    (f : IsFirst sha256 canonical_code reserved 0 limit id) × (id
      ≡ append (take_chars 3 canonical_code) (
          upper (
            take_chars 5 (
              sha256 (
                if nat_beq f.number 0
                then canonical_code
                else joined ":" canonical_code (decimal f.number))))))
    × IsPhysical id
    × ((unit : String) × (rest : String) × (split_once "-" canonical_code ≡ some (unit, rest))
        × IsUnit unit
        × (take_chars 3 id ≡ unit))

IsFirst-IsGiven :
    (sha256 : String → String) (canonical_code : String) (reserved : List String) (limit : ℕ)
    (id : String)
    → ((s : String) → IsDigest (sha256 s))
    → is_canonical canonical_code ≡ true
    → IsFirst sha256 canonical_code reserved 0 limit id
    → IsGiven sha256 canonical_code reserved limit id
IsFirst-IsGiven sha256 canonical_code reserved limit id digest canonical f =
    let (unit, rest, is_split, is_unit, begins) =
      canonical-IsUnit canonical_code (split_once "-" canonical_code) refl canonical in
    let parts = f.given ∙ candidate_at-parts sha256 canonical_code f.number in
    let short = unit-IsShort unit is_unit in
    let suffix = upper (
      take_chars 5 (
        sha256 (
          if nat_beq f.number 0
          then canonical_code
          else joined ":" canonical_code (decimal f.number)))) in
    (
      f,
      parts,
      subst IsPhysical (sym f.given)
          (candidate-IsPhysical sha256 digest canonical_code f.number canonical),
      (
        unit,
        rest,
        is_split,
        is_unit,
        ap (λ x. take_chars 3 x) parts
            ∙ ap (λ x. take_chars 3 (append x suffix)) begins
            ∙ subst (λ n. take_chars n (append unit suffix) ≡ unit) short.0
                (take_chars-append unit suffix),
      ),
    )

-- The identifier of a campaign is that of its first attempt which no reserved identifier has taken, in
-- upper case, whatever the number of attempts: the first three characters of the code, which are its
-- unit, and in upper case the first five digits of the hash of the code, or after the first attempt of
-- the code with the attempt's number. It has eight upper case letters or digits. For a canonical code
-- the search fails only when the candidates of all the attempts are taken. The hashes are taken to be
-- hexadecimal digits, five at least.
pub physical_campaign_id_lem :
    (sha256 : String → String) (canonical_code : String) (reserved_ids : List String)
    (max_attempts : ℕ)
    → ((s : String) → IsDigest (sha256 s))
    → ((id : String)
        → physical_campaign_id sha256 canonical_code reserved_ids max_attempts ≡ ok id
        → IsGiven sha256 canonical_code (map upper reserved_ids) max_attempts id)
      × ((e : Raised)
          → is_canonical canonical_code ≡ true
          → physical_campaign_id sha256 canonical_code reserved_ids max_attempts ≡ err e
          → (n : ℕ) → n < max_attempts
          → contains (candidate_at sha256 canonical_code n) (map upper reserved_ids) ≡ true)
unfolding physical_campaign_id
physical_campaign_id_lem sha256 canonical_code reserved_ids max_attempts digest =
    elim (allocates sha256 canonical_code (map upper reserved_ids) 0 max_attempts) [
      | inl found ↦ (
        λ id e.
            let canonical : is_canonical canonical_code ≡ true = ground arith in
            let is : found.0 ≡ id = ground (arith, found.1, canonical) in
            IsFirst-IsGiven sha256 canonical_code (map upper reserved_ids) max_attempts id digest
              canonical
              (subst (IsFirst sha256 canonical_code (map upper reserved_ids) 0 max_attempts) is (
                subst (λ m. IsFirst sha256 canonical_code (map upper reserved_ids) 0 m found.0)
                  (omega arith) found.2)),
        λ e canonical raised n h. absurd (ground (arith, found.1)),
      )
      | inr none_free ↦ (
        λ id e. absurd (ground (arith, none_free.0)),
        λ e canonical raised n h. none_free.1 n (omega arith) (omega (arith, h)),
      )
    ]
