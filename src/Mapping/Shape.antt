-- ===== src/Mapping/Shape.antt =====
-- What the candidates of a campaign look like (physical_campaign_id of app/core/vicidial_mapping.py).
use Prim.Native.Char.{Char, code}
use Prim.Native.String.append
use Prim.Native.String.{◌++◌ as append}
use codestra_middleware.Base.{
  if◌then◌else◌, Bool, ap, ◌∙◌, some, none, Option, Option-cases, ℕ, zero, suc, ◌+◌, ◌≤◌, ◌≡◌, inl,
  inr, refl, sym, subst, nat_beq, true, false, String, string_eq, arith, Bool-cases,
}
use codestra_middleware.Text.{
  upper, size, split_once, joined, decimal, AllChars, is_hex_digit, is_upper_digit, upper-AllChars,
  size-upper,
}
use codestra_middleware.Mapping.Validity.{
  IsIdChar, AllOf, IsPhysical, IsUnit, IsUnit-iff, id_chars_iff,
}
use codestra_middleware.Mapping.{
  every_char, is_id_char, candidate_at, material, take_chars, is_canonical, is_canonical_split,
}

-- A digest has five hexadecimal digits at least, and no other characters.
abbrev pub IsDigest : String → Type 0
IsDigest s = (5 ≤ size s) × AllChars is_hex_digit s

size-append : (a b : String) → size (append a b) ≡ size a + size b
unfolding size
size-append String.[] b = rw (append.nil b) (omega arith)
size-append (String.◌∷◌ c a) b = rw (append.cons c a b) (omega (arith, size-append a b))

size-take_chars : (n : ℕ) (s : String) → n ≤ size s → size (take_chars n s) ≡ n
unfolding take_chars size
size-take_chars zero s h = refl
size-take_chars (suc n) String.[] h = absurd (omega (arith, h))
size-take_chars (suc n) (String.◌∷◌ c s) h = omega (arith, size-take_chars n s (omega (arith, h)))

take_chars-AllChars :
    (p : Char → Bool) (n : ℕ) (s : String) → AllChars p s → AllChars p (take_chars n s)
unfolding take_chars
take_chars-AllChars p zero s h = tt
take_chars-AllChars p (suc n) String.[] h = tt
take_chars-AllChars p (suc n) (String.◌∷◌ c s) h = (h.0, take_chars-AllChars p n s h.1)

AllOf-append : (P : ℕ → Type 0) (a b : String) → AllOf P a → AllOf P b → AllOf P (append a b)
AllOf-append P String.[] b h g = rw (append.nil b) g
AllOf-append P (String.◌∷◌ c a) b h g = rw (append.cons c a b) (h.0, AllOf-append P a b h.1 g)

AllOf-of_digits : (s : String) → AllChars is_upper_digit s → AllOf IsIdChar s
AllOf-of_digits String.[] h = tt
AllOf-of_digits (String.◌∷◌ c s) h = (ground (arith, h.0), AllOf-of_digits s h.1)

take_chars-more :
    (n : ℕ) (c : Char) (s : String)
    → take_chars (n + 1) (String.◌∷◌ c s) ≡ String.◌∷◌ c (take_chars n s)
unfolding take_chars
take_chars-more n c s =
    ap (λ k. take_chars k (String.◌∷◌ c s)) {x = n + 1} {y = suc n} (omega arith)

-- The part before the first dash begins the text.
take_chars-split :
    (mark : Char) (s before after : String)
    → split_once mark s ≡ some (before, after)
    → take_chars (size before) s ≡ before
unfolding split_once take_chars size
take_chars-split mark String.[] before after e = absurd (cc)
take_chars-split mark (String.◌∷◌ c s) before after e =
    elim (Bool-cases (nat_beq (code c) (code mark))) [
      | inl same ↦
          let is : "" ≡ before = cc (rw same at e) in
          subst (λ b. take_chars (size b) (String.◌∷◌ c s) ≡ b) is refl
      | inr other ↦ elim (Option-cases (split_once mark s)) [
        | inl none_there ↦ absurd (cc (rw (other, none_there) at e))
        | inr ((b, a), found) ↦
            let is : String.◌∷◌ c b ≡ before = cc (rw (other, found) at e) in
            subst (λ x. take_chars (size x) (String.◌∷◌ c s) ≡ x) is
              (take_chars-more (size b) c s
                ∙ ap (λ x. String.◌∷◌ c x) (take_chars-split mark s b a found))
      ]
    ]

abbrev pub IsShort : String → Type 0
IsShort u = (size u ≡ 3) × (every_char is_id_char u ≡ true)

pub unit-IsShort : (u : String) → IsUnit u → IsShort u
unfolding size every_char is_id_char
unit-IsShort u (inl e) = subst IsShort (sym e) (refl, refl)
unit-IsShort u (inr (inl e)) = subst IsShort (sym e) (refl, refl)
unit-IsShort u (inr (inr (inl e))) = subst IsShort (sym e) (refl, refl)
unit-IsShort u (inr (inr (inr (inl e)))) = subst IsShort (sym e) (refl, refl)
unit-IsShort u (inr (inr (inr (inr (inl e))))) = subst IsShort (sym e) (refl, refl)
unit-IsShort u (inr (inr (inr (inr (inr (inl e)))))) = subst IsShort (sym e) (refl, refl)
unit-IsShort u (inr (inr (inr (inr (inr (inr (inl e))))))) = subst IsShort (sym e) (refl, refl)
unit-IsShort u (inr (inr (inr (inr (inr (inr (inr e))))))) = subst IsShort (sym e) (refl, refl)

pub canonical-IsUnit :
    (canonical_code : String) (o : Option (String × String))
    → split_once "-" canonical_code ≡ o
    → is_canonical_split o ≡ true
    → (unit : String) × (rest : String) × (o ≡ some (unit, rest))
      × IsUnit unit
      × (take_chars 3 canonical_code ≡ unit)
unfolding is_canonical_split
canonical-IsUnit canonical_code none e h = absurd (cc)
canonical-IsUnit canonical_code (some (unit, rest)) e h =
    let is_unit = (IsUnit-iff unit).0 (ground (arith, h)) in
    let short = unit-IsShort unit is_unit in
    (
      unit,
      rest,
      refl,
      is_unit,
      subst (λ n. take_chars n canonical_code ≡ unit) short.0
          (take_chars-split "-" canonical_code unit rest e),
    )

module _ (sha256 : String → String) (digest : (s : String) → IsDigest (sha256 s)) where
  suffix-IsId :
      (s : String)
      → let five = upper (take_chars 5 (sha256 s)) in (size five ≡ 5) × AllOf IsIdChar five
  suffix-IsId s =
      let h = digest s in
      (
        size-upper (take_chars 5 (sha256 s)) ∙ size-take_chars 5 (sha256 s) h.0,
        AllOf-of_digits _ (upper-AllChars _ (take_chars-AllChars is_hex_digit 5 (sha256 s) h.1)),
      )

  pub candidate-IsPhysical :
      (canonical_code : String) (attempt : ℕ)
      → is_canonical canonical_code ≡ true
      → IsPhysical (candidate_at sha256 canonical_code attempt)
  unfolding candidate_at
  candidate-IsPhysical canonical_code attempt canonical =
      let (unit, rest, _, is_unit, begins) =
        canonical-IsUnit canonical_code (split_once "-" canonical_code) refl canonical in
      let short = unit-IsShort unit is_unit in
      let suffix = suffix-IsId (material canonical_code attempt) in
      let five = upper (take_chars 5 (sha256 (material canonical_code attempt))) in
      rw begins (
        size-append unit five ∙ omega (arith, short.0, suffix.0),
        AllOf-append IsIdChar unit five ((id_chars_iff unit).0 short.1) suffix.1,
      )

pub take_chars-append : (a b : String) → take_chars (size a) (append a b) ≡ a
unfolding size take_chars
take_chars-append String.[] b = refl
take_chars-append (String.◌∷◌ c a) b =
    rw (append.cons c a b)
      (take_chars-more (size a) c (append a b) ∙ ap (λ x. String.◌∷◌ c x) (take_chars-append a b))

-- What the candidate of an attempt is made of.
pub candidate_at-parts :
    (sha256 : String → String) (canonical_code : String) (n : ℕ)
    → candidate_at sha256 canonical_code n
      ≡ append (take_chars 3 canonical_code) (
          upper (
            take_chars 5 (
              sha256
                (if nat_beq n 0 then canonical_code else joined ":" canonical_code (decimal n)))))
unfolding candidate_at material
candidate_at-parts sha256 canonical_code zero = refl
candidate_at-parts sha256 canonical_code (suc n) =
    let later : nat_beq (suc n) 0 ≡ false = ground arith in rw later refl
