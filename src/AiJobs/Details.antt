-- ===== src/AiJobs/Details.antt =====
-- sanitize_error_details of app/core/ai_jobs.py: what a dead letter keeps of a worker's report.
use Prim.Native.Char.{Char, code}
use codestra_middleware.Base.{
  Bool, true, false, ◌&&◌, ◌||◌, List, [], ◌∷◌, String, Dict, leb, nat_beq, string_eq, insert,
  contains, if◌then◌else◌,
}
use codestra_middleware.Json.{Value, boolean, number, text}
use codestra_middleware.Text.{lower, size}

abbrev pub safe_error_detail_fields : List String
safe_error_detail_fields =
    "category" ∷ "component" ∷ "http_status" ∷ "model_profile" ∷ "operation" ∷ "provider"
    ∷ "timeout_seconds" ∷ []

-- The class `[A-Za-z0-9._:/ -]`.
unfoldable pub is_plain : Char → Bool
is_plain c =
    (leb b'A' (code c) && leb (code c) b'Z')
    || (leb b'a' (code c) && leb (code c) b'z')
    || (leb b'0' (code c) && leb (code c) b'9')
    || nat_beq (code c) b'.'
    || nat_beq (code c) b'_'
    || nat_beq (code c) b':'
    || nat_beq (code c) b'/'
    || nat_beq (code c) b' '
    || nat_beq (code c) b'-'

unfoldable pub all_plain : String → Bool
unfolding is_plain
all_plain String.[] = true
all_plain (String.◌∷◌ c s) = is_plain c && all_plain s

-- `isinstance(value, str) and re.fullmatch(...)`, or an `int` or a `bool`. Floats are not values of
-- the model.
unfoldable pub is_safe : Value → Bool
unfolding all_plain size
is_safe (text s) = leb 1 (size s) && leb (size s) 128 && all_plain s
is_safe (number n) = true
is_safe (boolean b) = true
is_safe _ = false

-- The loop over `details.items()`, with what is safe so far.
unfoldable pub sanitize_from : Dict String Value → Dict String Value → Dict String Value
unfolding lower is_safe insert
sanitize_from safe [] = safe
sanitize_from safe ((key, value) ∷ details) =
    sanitize_from
      (if contains (lower key) safe_error_detail_fields && is_safe value
        then insert (lower key) value safe
        else safe)
      details

unfoldable pub sanitize_error_details : Dict String Value → Dict String Value
unfolding sanitize_from
sanitize_error_details details = sanitize_from [] details
