-- ===== src/Mapping.antt =====
-- app/core/vicidial_mapping.py: the identifiers of campaigns in the dialer. Only SHA-256, as the digits of
-- a digest, is an argument.
pub mod Validity
pub mod Registries
pub mod Shape
pub mod Candidates
mod Tests
use Prim.Native.Char.{Char, code}
use Prim.Native.String.{◌++◌ as append}
use codestra_middleware.Base.{
  leb, nat_beq, ℕ, zero, suc, Bool, true, false, not, ◌&&◌, ◌||◌, List, [], ◌∷◌, Option, none, some,
  String, ok, err, ◌>>=◌, ◌>>◌, raise_if, ltb, contains, map, ◌==◌, string_eq, pair_eq,
  if◌then◌else◌, ⊤,
}
use codestra_middleware.Raised.{Outcome, value_error}
use codestra_middleware.Text.{lower, upper, size, split_once, joined, decimal}

abbrev pub valid_environments : List String
valid_environments = "development" ∷ "staging" ∷ "production" ∷ []

pub record CampaignIdentity : Type 0 where
  pub environment : String
  pub business_unit_code : String
  pub canonical_campaign_code : String
  pub vicidial_campaign_id : String
  pub mapping_version : ℕ
  pub active : Bool

-- The units that a canonical code can begin with.
abbrev pub units : List String
units = "MOY" ∷ "COD" ∷ "SCP" ∷ "MBL" ∷ "RLP" ∷ "FTP" ∷ "TRX" ∷ "CAL" ∷ []

-- The class `[A-Z0-9]`, and with the dash `[A-Z0-9-]`.
unfoldable pub is_id_char : Char → Bool
is_id_char c = (leb b'A' (code c) && leb (code c) b'Z') || (leb b'0' (code c) && leb (code c) b'9')

unfoldable pub is_code_char : Char → Bool
unfolding is_id_char
is_code_char c = is_id_char c || nat_beq (code c) b'-'

unfoldable pub every_char : (Char → Bool) → String → Bool
every_char p String.[] = true
every_char p (String.◌∷◌ c s) = p c && every_char p s

-- `CANONICAL_PATTERN.fullmatch`, on the parts around the first dash; no unit has a dash.
unfoldable pub is_canonical_split : Option (String × String) → Bool
unfolding is_code_char every_char
is_canonical_split none = false
is_canonical_split (some (unit, rest)) =
    contains unit units && leb 1 (size rest) && every_char is_code_char rest

abbrev pub is_canonical : String → Bool
is_canonical canonical_code = is_canonical_split (split_once "-" canonical_code)

-- `PHYSICAL_PATTERN.fullmatch`
unfoldable pub is_physical : String → Bool
unfolding is_id_char every_char
is_physical id = nat_beq (size id) 8 && every_char is_id_char id

-- `canonical_campaign_code.split("-", 1)[0]`
abbrev pub first_part : String → Option (String × String) → String
first_part whole none = whole
first_part whole (some (before, after)) = before

abbrev pub unit_of : String → String
unit_of canonical_code = first_part canonical_code (split_once "-" canonical_code)

-- `text[:n]`
unfoldable pub take_chars : ℕ → String → String
take_chars zero s = ""
take_chars (suc n) String.[] = ""
take_chars (suc n) (String.◌∷◌ c s) = String.◌∷◌ c (take_chars n s)

-- What is hashed for an attempt.
unfoldable pub material : String → ℕ → String
material canonical_code zero = canonical_code
material canonical_code (suc n) = joined ":" canonical_code (decimal (suc n))

-- The candidate of an attempt.
unfoldable pub candidate_at : (String → String) → String → ℕ → String
unfolding material take_chars upper
candidate_at sha256 canonical_code attempt =
    append (take_chars 3 canonical_code)
      (upper (take_chars 5 (sha256 (material canonical_code attempt))))

-- `MappingValidationError` is a `ValueError`.
unfoldable pub validate : CampaignIdentity → Outcome ⊤
validate c = do
  raise_if (not (contains (lower c.environment) valid_environments))
      (value_error "unsupported environment")
  raise_if (not (is_canonical c.canonical_campaign_code))
      (value_error "invalid canonical campaign code")
  raise_if (not (unit_of c.canonical_campaign_code == c.business_unit_code))
      (value_error "campaign business unit mismatch")
  raise_if (not (is_physical c.vicidial_campaign_id))
      (value_error "physical campaign ID must be 8 uppercase alphanumerics")
  raise_if (ltb c.mapping_version 1) (value_error "mapping version must be positive")
  raise_if (lower c.environment == "production" && c.active)
      (value_error "production activation requires a separate approval gate")
  ok tt

-- The attempts from `attempt` on, of which `left` are left.
unfoldable pub allocate_from : (String → String) → String → List String → ℕ → ℕ → Outcome String
allocate_from sha256 canonical_code reserved attempt zero =
    err (value_error "unable to allocate collision-free physical campaign ID")
allocate_from sha256 canonical_code reserved attempt (suc left) =
    let rest = allocate_from sha256 canonical_code reserved (suc attempt) left in
    if contains (candidate_at sha256 canonical_code attempt) reserved
    then rest
    else ok (candidate_at sha256 canonical_code attempt)

unfoldable pub physical_campaign_id : (String → String) → String → List String → ℕ → Outcome String
unfolding allocate_from
physical_campaign_id sha256 canonical_code reserved_ids max_attempts =
    raise_if (not (is_canonical canonical_code)) (value_error "invalid canonical campaign code")
    >> allocate_from sha256 canonical_code (map upper reserved_ids) 0 max_attempts

-- `(record.environment.lower(), record.canonical_campaign_code)`
abbrev pub canonical_key : CampaignIdentity → String × String
canonical_key c = (lower c.environment, c.canonical_campaign_code)

unfoldable pub validate_from :
    List CampaignIdentity → List (String × String) → List String → Outcome ⊤
unfolding validate
validate_from [] keys ids = ok tt
validate_from (c ∷ cs) keys ids = do
  validate c
  raise_if (contains (canonical_key c) keys)
      (value_error "duplicate canonical campaign in environment")
  raise_if (contains c.vicidial_campaign_id ids)
      (value_error "duplicate physical VICIdial campaign ID")
  validate_from cs (canonical_key c ∷ keys) (c.vicidial_campaign_id ∷ ids)

unfoldable pub validate_registry : List CampaignIdentity → Outcome ⊤
unfolding validate_from
validate_registry records = validate_from records [] []

unfoldable pub validate_version_change : ℕ → ℕ → Outcome ⊤
validate_version_change current requested =
    raise_if (ltb requested current) (value_error "mapping version cannot decrease")
