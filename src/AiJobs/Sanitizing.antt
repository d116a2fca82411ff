-- ===== src/AiJobs/Sanitizing.antt =====
-- What a dead letter can hold (sanitize_error_details of app/core/ai_jobs.py).
use Prim.Native.Char.{Char, code}
use codestra_middleware.Base.{
  ℕ, ◌≤◌, ◌≡◌, ◌↔◌, ◌⊎◌, refl, sym, ap, ==_iff, arith, lookup-insert, lookup-insert_self, ◌∙◌, some,
  lookup, Bool, true, false, ◌&&◌, [], ◌∷◌, String, Dict, string_eq, ◌==◌, insert, contains, All,
  Bool-cases, inl, inr,
}
use codestra_middleware.Json.{Value, null, boolean, number, text, array, object}
use codestra_middleware.Text.{lower, size}
use codestra_middleware.AiJobs.Details.{
  safe_error_detail_fields, is_plain, all_plain, is_safe, sanitize_from, sanitize_error_details,
}

-- What the code tests of one entry.
abbrev Passes : String × Value → Type 0
Passes (key, value) = (contains key safe_error_detail_fields ≡ true) × (is_safe value ≡ true)

insert-Passes :
    (key : String) (value : Value) (d : Dict String Value)
    → Passes (key, value)
    → All Passes d
    → All Passes (insert key value d)
unfolding insert
insert-Passes key value [] c a = (c, tt)
insert-Passes key value ((k, v) ∷ d) c a = elim (Bool-cases (k == key)) [
  | inl same ↦ rw same ((a.0.0, c.1), a.1)
  | inr other ↦ rw other (a.0, insert-Passes key value d c a.1)
]

both-parts : (b c : Bool) → b && c ≡ true → (b ≡ true) × (c ≡ true)
both-parts true c e = (refl, e)
both-parts false c e = absurd (cc)

sanitize_from-Passes :
    (safe details : Dict String Value) → All Passes safe → All Passes (sanitize_from safe details)
unfolding sanitize_from
sanitize_from-Passes safe [] a = a
sanitize_from-Passes safe ((key, value) ∷ details) a =
    elim (Bool-cases (contains (lower key) safe_error_detail_fields && is_safe value)) [
      | inl clean ↦ rw clean (
          sanitize_from-Passes (insert (lower key) value safe) details (
            insert-Passes (lower key) value safe
              (both-parts (contains (lower key) safe_error_detail_fields) (is_safe value) clean) a))
      | inr unclean ↦ rw unclean (sanitize_from-Passes safe details a)
    ]

-- A letter, a digit, a space or one of `.` `_` `:` `/` `-`, by its code: those from `-` to `:`, those
-- from `A` to `Z` and from `a` to `z`, the space and the underscore.
abbrev pub IsPlain : ℕ → Type 0
IsPlain n =
    ((45 ≤ n) × (n ≤ 58))
    ⊎ (((65 ≤ n) × (n ≤ 90)) ⊎ (((97 ≤ n) × (n ≤ 122)) ⊎ ((n ≡ 32) ⊎ (n ≡ 95))))

abbrev pub ArePlain : String → Type 0
ArePlain String.[] = Unit
ArePlain (String.◌∷◌ c s) = IsPlain (code c) × ArePlain s

-- A number, a truth value, or a text of 1 to 128 plain characters.
abbrev pub IsHarmless : Value → Type 0
IsHarmless (number n) = Unit
IsHarmless (boolean b) = Unit
IsHarmless (text s) = (1 ≤ size s) × (size s ≤ 128) × ArePlain s
IsHarmless _ = ⊥

-- One of the seven names that are kept.
abbrev pub IsKept : String → Type 0
IsKept key =
    (key ≡ "category")
    ⊎ ((key ≡ "component")
        ⊎ ((key ≡ "http_status")
            ⊎ ((key ≡ "model_profile")
                ⊎ ((key ≡ "operation") ⊎ ((key ≡ "provider") ⊎ (key ≡ "timeout_seconds"))))))

abbrev pub IsClean : String × Value → Type 0
IsClean (key, value) = IsKept key × IsHarmless value

is_plain_iff : (c : Char) → (is_plain c ≡ true) ↔ IsPlain (code c)
unfolding is_plain
is_plain_iff c = ground arith

all_plain_iff : (s : String) → (all_plain s ≡ true) ↔ ArePlain s
unfolding all_plain
all_plain_iff String.[] = (λ _. tt, λ _. refl)
all_plain_iff (String.◌∷◌ c s) =
    let one = is_plain_iff c in
    let rest = all_plain_iff s in
    (
      λ e. let p = both-parts (is_plain c) (all_plain s) e in (one.0 p.0, rest.0 p.1),
      λ h. rw (one.1 h.0) (rest.1 h.1),
    )

is_safe_iff : (v : Value) → (is_safe v ≡ true) ↔ IsHarmless v
unfolding is_safe
is_safe_iff null = (λ e. absurd (cc), λ h. absurd h)
is_safe_iff (boolean b) = (λ _. tt, λ _. refl)
is_safe_iff (number n) = (λ _. tt, λ _. refl)
is_safe_iff (text s) =
    let plain = all_plain_iff s in
    (
      λ e. (ground (arith, e), ground (arith, e), plain.0 (ground (arith, e))),
      λ h. ground (arith, h.0, h.1, plain.1 h.2),
    )
is_safe_iff (array xs) = (λ e. absurd (cc), λ h. absurd h)
is_safe_iff (object xs) = (λ e. absurd (cc), λ h. absurd h)

IsKept-iff : (key : String) → (contains key safe_error_detail_fields ≡ true) ↔ IsKept key
IsKept-iff key = ground (
  arith,
  ==_iff key "category",
  ==_iff key "component",
  ==_iff key "http_status",
  ==_iff key "model_profile",
  ==_iff key "operation",
  ==_iff key "provider",
  ==_iff key "timeout_seconds",
)

Passes-IsClean : (d : Dict String Value) → All Passes d → All IsClean d
Passes-IsClean [] a = tt
Passes-IsClean ((key, value) ∷ d) a =
    (((IsKept-iff key).0 a.0.0, (is_safe_iff value).0 a.0.1), Passes-IsClean d a.1)

-- Something is kept under the name.
abbrev pub Holds : String → Dict String Value → Type 0
Holds name d = (w : Value) × (lookup name d ≡ some w)

insert-Holds :
    (name key : String) (value : Value) (d : Dict String Value)
    → Holds name d
    → Holds name (insert key value d)
insert-Holds name key value d (w, e) = elim (Bool-cases (key == name)) [
  | inl same ↦ (value, rw (lookup-insert, same) refl)
  | inr other ↦ (w, rw (lookup-insert, other) e)
]

sanitize_from-Holds :
    (name : String) (safe details : Dict String Value)
    → Holds name safe
    → Holds name (sanitize_from safe details)
unfolding sanitize_from
sanitize_from-Holds name safe [] h = h
sanitize_from-Holds name safe ((key, value) ∷ details) h =
    elim (Bool-cases (contains (lower key) safe_error_detail_fields && is_safe value)) [
      | inl clean ↦ rw clean (
          sanitize_from-Holds name (insert (lower key) value safe) details
            (insert-Holds name (lower key) value safe h))
      | inr unclean ↦ rw unclean (sanitize_from-Holds name safe details h)
    ]

sanitize_from-keeps :
    (details safe : Dict String Value) (key : String) (value : Value)
    → lookup key details ≡ some value
    → IsClean (lower key, value)
    → Holds (lower key) (sanitize_from safe details)
unfolding sanitize_from lookup
sanitize_from-keeps [] safe key value e c = absurd (cc)
sanitize_from-keeps ((k, v) ∷ details) safe key value e c = elim (Bool-cases (k == key)) [
  | inl same ↦
      let is_key : k ≡ key = (==_iff k key).0 same in
      let is_value : v ≡ value = cc (rw same at e) in
      let clean : contains (lower k) safe_error_detail_fields && is_safe v ≡ true =
        rw (is_key, is_value)
          (ground (arith, (IsKept-iff (lower key)).1 c.0, (is_safe_iff value).1 c.1)) in
      rw clean (
        sanitize_from-Holds (lower key) (insert (lower k) v safe) details (
          v,
          ap (λ x. lookup x (insert (lower k) v safe)) (ap lower (sym is_key))
              ∙ lookup-insert_self (lower k) v safe,
        ))
  | inr other ↦ sanitize_from-keeps details _ key value (rw other at e) c
]

-- Whatever a worker reports, what is kept of it stands under one of the seven known names and is a
-- number, a truth value or a text of 1 to 128 plain characters: letters, digits, spaces and `.` `_` `:`
-- `/` `-`. And where the report has a value of this kind under one of the names, in whatever case, then
-- a value is kept under that name.
pub sanitize-IsClean :
    (details : Dict String Value)
    → All IsClean (sanitize_error_details details)
      × ((key : String) (value : Value)
          → lookup key details ≡ some value
          → IsClean (lower key, value)
          → Holds (lower key) (sanitize_error_details details))
unfolding sanitize_error_details
sanitize-IsClean details = (
  Passes-IsClean _ (sanitize_from-Passes [] details tt),
  λ key value e c. sanitize_from-keeps details [] key value e c,
)
