-- ===== src/Controller/Screening.antt =====
-- What app/core/controller.py refuses in a tool's arguments, and what app/core/automation.py masks
-- before anything is stored.
use Prim.Native.String.{◌++◌ as append}
use codestra_middleware.Base.{
  ℕ, ◌+◌, ◌≡◌, refl, ◌↔◌, ap, Bool, true, false, ◌||◌, List, [], ◌∷◌, String, ok, ◌>>◌, raise_if,
  if◌then◌else◌, arith, contains, string_eq, ⊤, Bool-cases, inl, inr,
}
use codestra_middleware.Raised.{Outcome, controller_error}
use codestra_middleware.Text.{lower, decimal}
use codestra_middleware.Json.{
  Value, null, boolean, number, text, array, object, Items, nil, cons, Fields, end, field,
}

abbrev pub forbidden_argument_keys : List String
forbidden_argument_keys =
    "command" ∷ "command_string" ∷ "shell" ∷ "shell_command" ∷ "private_key" ∷ "ca_private_key"
    ∷ "docker_socket" ∷ "database_url" ∷ "password" ∷ "secret" ∷ "token" ∷ []

abbrev pub sensitive_keys : List String
sensitive_keys =
    "authorization" ∷ "cookie" ∷ "password" ∷ "phone" ∷ "phone_e164" ∷ "prompt" ∷ "secret" ∷ "token"
    ∷ []

unfoldable pub is_forbidden : String → Bool
is_forbidden key = contains (lower key) forbidden_argument_keys

unfoldable pub is_sensitive : String → Bool
is_sensitive key = contains (lower key) sensitive_keys

-- `_reject_forbidden`
unfoldable mutual
  pub reject_forbidden : Value → String → Outcome ⊤
  reject_forbidden null path = ok tt
  reject_forbidden (boolean b) path = ok tt
  reject_forbidden (number n) path = ok tt
  reject_forbidden (text s) path = ok tt
  reject_forbidden (array xs) path = reject_items xs path 0
  reject_forbidden (object fs) path = reject_fields fs path

  pub reject_items : Items → String → ℕ → Outcome ⊤
  reject_items nil path index = ok tt
  reject_items (cons x xs) path index =
      reject_forbidden x (append path (append "[" (append (decimal index) "]")))
      >> reject_items xs path (index + 1)

  pub reject_fields : Fields → String → Outcome ⊤
  reject_fields end path = ok tt
  reject_fields (field key v fs) path =
      raise_if (is_forbidden key)
        (controller_error (append "forbidden field: " (append path (append "." key))))
      >> (reject_forbidden v (append path (append "." key)) >> reject_fields fs path)

-- `redact` of app/core/automation.py
unfoldable mutual
  pub redact : Value → Value
  redact null = null
  redact (boolean b) = boolean b
  redact (number n) = number n
  redact (text s) = text s
  redact (array xs) = array (redact_items xs)
  redact (object fs) = object (redact_fields fs)

  pub redact_items : Items → Items
  redact_items nil = nil
  redact_items (cons x xs) = cons (redact x) (redact_items xs)

  pub redact_fields : Fields → Fields
  redact_fields end = end
  redact_fields (field key v fs) =
      field key (if is_sensitive key then text "[REDACTED]" else redact v) (redact_fields fs)

-- A forbidden key stands somewhere in the value.
mutual
  pub mentions : Value → Bool
  mentions null = false
  mentions (boolean b) = false
  mentions (number n) = false
  mentions (text s) = false
  mentions (array xs) = mentions_items xs
  mentions (object fs) = mentions_fields fs

  pub mentions_items : Items → Bool
  mentions_items nil = false
  mentions_items (cons x xs) = mentions x || mentions_items xs

  pub mentions_fields : Fields → Bool
  mentions_fields end = false
  mentions_fields (field key v fs) = is_forbidden key || (mentions v || mentions_fields fs)

mutual
  unfolding reject_forbidden mentions

  rejects : (v : Value) (path : String) → (reject_forbidden v path ≡ ok tt) ↔ (mentions v ≡ false)
  rejects null path = ground arith
  rejects (boolean b) path = ground arith
  rejects (number n) path = ground arith
  rejects (text s) path = ground arith
  rejects (array xs) path = rejects_items xs path 0
  rejects (object fs) path = rejects_fields fs path

  rejects_items :
      (xs : Items) (path : String) (index : ℕ)
      → (reject_items xs path index ≡ ok tt) ↔ (mentions_items xs ≡ false)
  rejects_items nil path index = ground arith
  rejects_items (cons x xs) path index = ground (
    arith,
    rejects x (append path (append "[" (append (decimal index) "]"))),
    rejects_items xs path (index + 1),
  )

  rejects_fields :
      (fs : Fields) (path : String) → (reject_fields fs path ≡ ok tt) ↔ (mentions_fields fs ≡ false)
  rejects_fields end path = ground arith
  rejects_fields (field key v fs) path =
      ground (arith, rejects v (append path (append "." key)), rejects_fields fs path)

-- Arguments pass the screening exactly when no key at any depth is a forbidden one, in any case.
pub reject_forbidden-mentions :
    (v : Value) (path : String) → (reject_forbidden v path ≡ ok tt) ↔ (mentions v ≡ false)
reject_forbidden-mentions v path = rejects v path

-- Under a sensitive key stands the mask and nothing else, at any depth.
abbrev mutual
  pub IsMasked : Value → Type 0
  IsMasked null = Unit
  IsMasked (boolean b) = Unit
  IsMasked (number n) = Unit
  IsMasked (text s) = Unit
  IsMasked (array xs) = AllMasked xs
  IsMasked (object fs) = FieldsMasked fs

  pub AllMasked : Items → Type 0
  AllMasked nil = Unit
  AllMasked (cons x xs) = IsMasked x × AllMasked xs

  pub FieldsMasked : Fields → Type 0
  FieldsMasked end = Unit
  FieldsMasked (field key v fs) =
      (is_sensitive key ≡ true → v ≡ text "[REDACTED]") × IsMasked v × FieldsMasked fs

IsMasked-if : (b : Bool) (v : Value) → IsMasked v → IsMasked (if b then text "[REDACTED]" else v)
IsMasked-if true v h = tt
IsMasked-if false v h = h

mutual
  unfolding redact

  masks : (v : Value) → IsMasked (redact v)
  masks null = tt
  masks (boolean b) = tt
  masks (number n) = tt
  masks (text s) = tt
  masks (array xs) = masks_items xs
  masks (object fs) = masks_fields fs

  masks_items : (xs : Items) → AllMasked (redact_items xs)
  masks_items nil = tt
  masks_items (cons x xs) = (masks x, masks_items xs)

  masks_fields : (fs : Fields) → FieldsMasked (redact_fields fs)
  masks_fields end = tt
  masks_fields (field key v fs) =
      (λ s. rw s, IsMasked-if (is_sensitive key) (redact v) (masks v), masks_fields fs)

mutual
  unfolding redact

  keeps_masked : (v : Value) → IsMasked v → redact v ≡ v
  keeps_masked null h = refl
  keeps_masked (boolean b) h = refl
  keeps_masked (number n) h = refl
  keeps_masked (text s) h = refl
  keeps_masked (array xs) h = ap array (keeps_masked_items xs h)
  keeps_masked (object fs) h = ap object (keeps_masked_fields fs h)

  keeps_masked_items : (xs : Items) → AllMasked xs → redact_items xs ≡ xs
  keeps_masked_items nil h = refl
  keeps_masked_items (cons x xs) h = cc (keeps_masked x h.0, keeps_masked_items xs h.1)

  keeps_masked_fields : (fs : Fields) → FieldsMasked fs → redact_fields fs ≡ fs
  keeps_masked_fields end h = refl
  keeps_masked_fields (field key v fs) h = elim (Bool-cases (is_sensitive key)) [
    | inl s ↦ rw s (cc (h.0 s, keeps_masked_fields fs h.2))
    | inr n ↦ rw n (cc (keeps_masked v h.1, keeps_masked_fields fs h.2))
  ]

-- What is stored has nothing but the mask under a sensitive key, and a value that is masked
-- already is stored as it is, so masking twice is masking once.
pub redact-IsMasked : (v : Value) → IsMasked (redact v) × (redact (redact v) ≡ redact v)
redact-IsMasked v = (masks v, keeps_masked (redact v) (masks v))
