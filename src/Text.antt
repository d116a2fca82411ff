-- ===== src/Text.antt =====
-- The string methods that the program calls: `lower` and `upper` on ASCII letters, which leave other
-- characters as they are, filters on characters, prefixes and the substring test.
use Prim.Native.Char.{Char, code}
use text.Mathlib.Text.{find?}
use codestra_middleware.Base.{
  leb, ap, sym, subst, not, ◌⊎◌, inl, inr, Bool-cases, ℕ, zero, suc, ◌+◌, ◌/◌, ◌%◌, ◌≡◌, refl, Bool,
  true, false, ◌&&◌, ◌||◌, Option, none, some, List, [], ◌∷◌, arith, if◌then◌else◌, nat_beq, String,
}

-- The upper case ASCII letters with their lower case forms.
abbrev letters : List (Char × Char)
letters =
    ("A", "a")
    ∷ ("B", "b")
    ∷ ("C", "c")
    ∷ ("D", "d")
    ∷ ("E", "e")
    ∷ ("F", "f")
    ∷ ("G", "g")
    ∷ ("H", "h")
    ∷ ("I", "i")
    ∷ ("J", "j")
    ∷ ("K", "k")
    ∷ ("L", "l")
    ∷ ("M", "m")
    ∷ ("N", "n")
    ∷ ("O", "o")
    ∷ ("P", "p")
    ∷ ("Q", "q")
    ∷ ("R", "r")
    ∷ ("S", "s")
    ∷ ("T", "t")
    ∷ ("U", "u")
    ∷ ("V", "v")
    ∷ ("W", "w")
    ∷ ("X", "x")
    ∷ ("Y", "y")
    ∷ ("Z", "z")
    ∷ []

lower_in : List (Char × Char) → Char → Char
lower_in [] c = c
lower_in ((u, l) ∷ table) c = if nat_beq (code u) (code c) then l else lower_in table c

-- `str.lower()`
unfoldable pub lower : String → String
unfolding lower_in
lower String.[] = String.[]
lower (String.◌∷◌ c s) = String.◌∷◌ (lower_in letters c) (lower s)

upper_in : List (Char × Char) → Char → Char
upper_in [] c = c
upper_in ((u, l) ∷ table) c = if nat_beq (code l) (code c) then u else upper_in table c

-- `str.upper()`
unfoldable pub upper : String → String
unfolding upper_in
upper String.[] = String.[]
upper (String.◌∷◌ c s) = String.◌∷◌ (upper_in letters c) (upper s)

-- `part in text`
abbrev pub has_part : String → String → Bool
has_part part text = elim (find? text part) [ none ↦ false | some _ ↦ true ]

-- The truth value of a `str`.
abbrev pub is_empty : String → Bool
is_empty String.[] = true
is_empty (String.◌∷◌ _ _) = false

-- The characters that pass a test, `re.sub` of the others by the empty text.
unfoldable pub keep : (Char → Bool) → String → String
keep p String.[] = String.[]
keep p (String.◌∷◌ c s) = let rest = keep p s in if p c then String.◌∷◌ c rest else rest

-- `len(text)`, which counts characters.
unfoldable pub size : String → ℕ
size String.[] = 0
size (String.◌∷◌ _ s) = size s + 1

abbrev pub AllChars : (Char → Bool) → String → Type 0
AllChars p String.[] = Unit
AllChars p (String.◌∷◌ c s) = (p c ≡ true) × AllChars p s

pub keep-AllChars : (p : Char → Bool) (s : String) → AllChars p (keep p s)
unfolding keep
keep-AllChars p String.[] = tt
keep-AllChars p (String.◌∷◌ c s) = ground (arith, keep-AllChars p s)

-- A text whose characters all pass is kept whole.
pub keep-of_AllChars : (p : Char → Bool) (s : String) → AllChars p s → keep p s ≡ s
unfolding keep
keep-of_AllChars p String.[] h = refl
keep-of_AllChars p (String.◌∷◌ c s) h = ground (arith, keep-of_AllChars p s h.1)

-- The digits of a hash, `[0-9a-f]`, and what `upper` makes of them.
abbrev pub is_hex_digit : Char → Bool
is_hex_digit c = (leb 48 (code c) && leb (code c) 57) || (leb 97 (code c) && leb (code c) 102)

abbrev pub is_upper_digit : Char → Bool
is_upper_digit c = (leb 48 (code c) && leb (code c) 57) || (leb 65 (code c) && leb (code c) 90)

gives_upper : List (Char × Char) → Bool
gives_upper [] = true
gives_upper ((u, l) ∷ table) = is_upper_digit u && gives_upper table

-- No entry of the table is for the character.
misses : List (Char × Char) → Char → Bool
misses [] c = true
misses ((u, l) ∷ table) c = not (nat_beq (code l) (code c)) && misses table c

upper_in-misses :
    (table : List (Char × Char)) (c : Char)
    → gives_upper table ≡ true
    → (is_upper_digit (upper_in table c) ≡ true)
      ⊎ ((upper_in table c ≡ c) × (misses table c ≡ true))
unfolding upper_in gives_upper misses
upper_in-misses [] c h = inr (refl, refl)
upper_in-misses ((u, l) ∷ table) c h = elim (Bool-cases (nat_beq (code l) (code c))) [
  | inl same ↦ rw same (inl (ground arith))
  | inr other ↦ rw other (upper_in-misses table c (ground arith))
]

misses-digit :
    (c : Char) → misses letters c ≡ true → is_hex_digit c ≡ true → is_upper_digit c ≡ true
unfolding misses
misses-digit c m h = elim (Bool-cases (leb (code c) 57)) [
  | inl low ↦ ground (arith, low)
  | inr high ↦ absurd (ground (arith, high, h, m))
]

upper_in-digit : (c : Char) → is_hex_digit c ≡ true → is_upper_digit (upper_in letters c) ≡ true
unfolding gives_upper
upper_in-digit c h = elim (upper_in-misses letters c refl) [
  | inl upper_digit ↦ upper_digit
  | inr (same, missed) ↦ subst (λ x. is_upper_digit x ≡ true) (sym same) (misses-digit c missed h)
]

pub upper-AllChars : (s : String) → AllChars is_hex_digit s → AllChars is_upper_digit (upper s)
unfolding upper
upper-AllChars String.[] h = tt
upper-AllChars (String.◌∷◌ c s) h = (upper_in-digit c h.0, upper-AllChars s h.1)

pub size-upper : (s : String) → size (upper s) ≡ size s
unfolding upper size
size-upper String.[] = refl
size-upper (String.◌∷◌ c s) = ap (λ n. n + 1) (size-upper s)

upper_runs : upper "Leased-9" ≡ "LEASED-9"
unfolding upper
upper_runs = refl

lower_runs : lower "Api_KEY-9" ≡ "api_key-9"
unfolding lower
lower_runs = refl

has_part_runs : (has_part "token" "x_token_y" ≡ true) × (has_part "token" "tok" ≡ false)
has_part_runs = (refl, refl)

digit : ℕ → Char
digit zero = "0"
digit (suc zero) = "1"
digit (suc (suc zero)) = "2"
digit (suc (suc (suc zero))) = "3"
digit (suc (suc (suc (suc zero)))) = "4"
digit (suc (suc (suc (suc (suc zero))))) = "5"
digit (suc (suc (suc (suc (suc (suc zero)))))) = "6"
digit (suc (suc (suc (suc (suc (suc (suc zero))))))) = "7"
digit (suc (suc (suc (suc (suc (suc (suc (suc zero)))))))) = "8"
digit (suc (suc (suc (suc (suc (suc (suc (suc (suc n))))))))) = "9"

-- The digits of a number before the text; `n + 1` rounds are enough, since `n / 10` falls.
decimal_from : ℕ → ℕ → String → String
decimal_from zero n s = s
decimal_from (suc fuel) n s =
    let longer = String.◌∷◌ (digit (n % 10)) s in
    let rest = decimal_from fuel (n / 10) longer in if nat_beq (n / 10) 0 then longer else rest

-- `str(n)`
unfoldable pub decimal : ℕ → String
unfolding decimal_from digit
decimal n = decimal_from (n + 1) n ""

decimal_runs : decimal 9087 ≡ "9087"
unfolding decimal
decimal_runs = refl

-- `text.split(mark, 1)` at the first mark; `none` where there is none.
unfoldable pub split_once : Char → String → Option (String × String)
split_once mark String.[] = none
split_once mark (String.◌∷◌ c s) =
    let rest = split_once mark s in
    if nat_beq (code c) (code mark)
    then some ("", s)
    else elim rest [ none ↦ none | some (before, after) ↦ some (String.◌∷◌ c before, after) ]

abbrev pub has_char : Char → String → Bool
has_char mark String.[] = false
has_char mark (String.◌∷◌ c s) = nat_beq (code c) (code mark) || has_char mark s

-- Two texts joined by the mark, `f"{a}{mark}{b}"`.
unfoldable pub joined : Char → String → String → String
joined mark String.[] b = String.◌∷◌ mark b
joined mark (String.◌∷◌ c a) b = String.◌∷◌ c (joined mark a b)

-- Splitting undoes joining, where the first text is free of the mark.
pub split_once-joined :
    (mark : Char) (a b : String)
    → has_char mark a ≡ false
    → split_once mark (joined mark a b) ≡ some (a, b)
unfolding split_once joined
split_once-joined mark String.[] b h = ground arith
split_once-joined mark (String.◌∷◌ c a) b h = ground (arith, split_once-joined mark a b)

-- `text.startswith(prefix)`
unfoldable pub starts_with : String → String → Bool
starts_with String.[] s = true
starts_with (String.◌∷◌ c p) String.[] = false
starts_with (String.◌∷◌ c p) (String.◌∷◌ d s) = nat_beq (code c) (code d) && starts_with p s
