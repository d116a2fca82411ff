-- ===== src/Callbacks/Lifecycle.antt =====
-- What a callback can become along `TRANSITIONS` of app/core/callbacks.py, and what its checks
-- guarantee.
use Prim.Native.Char.{Char}
use codestra_middleware.Base.{
  ℕ, ◌+◌, ◌≤◌, ◌≡◌, refl, sym, ◌∙◌, ◌↔◌, inl, inr, Bool, true, false, ◌&&◌, some, List, [], ◌∷◌,
  String, ok, arith, if◌then◌else◌, ◌==◌, string_eq, int_eq, contains, all, lookup, Bool-cases,
  Option-cases, map, contains-of_all, eq-of_==, ℤ,
}
use text.Mathlib.TextEquality.{eq_iff}
use codestra_middleware.Clock.{DateTime, ZoneDatabase}
use codestra_middleware.Text.{keep, size, AllChars, keep-AllChars, keep-of_AllChars}
use codestra_middleware.Transitions.{
  allowed, Reach, keeps, leads_to, keeps-Reach, walk, walk-Reach, last_or, sources, sources-allowed,
}
use codestra_middleware.Callbacks.{
  terminal, transitions, transition, normalized_phone, canonical_time, compliance_state,
}

-- The states that have an entry in the table.
abbrev pub states : List String
states = map (λ e. e.0) transitions

pub transition-allowed : (s t : String) → transition s t ≡ ok tt → allowed transitions s t ≡ true
unfolding transition
transition-allowed s t h = ground arith

-- Whatever walk an aggregate takes from a known state, it stays among the fourteen known states.
pub known_states :
    (s : String) {t : String}
    → contains s states ≡ true
    → Reach transitions s t
    → contains t states ≡ true
unfolding leads_to
known_states s h r = keeps-Reach (λ x. contains x states) transitions refl h r

absorbs :
    (x s : String) {t : String}
    → keeps (λ y. y == x) transitions ≡ true
    → (s == x) ≡ true
    → Reach transitions s t
    → t ≡ s
absorbs x s {t = t} k e r =
    eq-of_== t x (keeps-Reach (λ y. y == x) transitions k e r) ∙ sym (eq-of_== s x e)

-- A completed or cancelled callback stays as it is: no walk leaves its state.
pub terminal-Reach :
    (s : String) {t : String} → contains s terminal ≡ true → Reach transitions s t → t ≡ s
unfolding leads_to
terminal-Reach s h r = elim (Bool-cases (s == "COMPLETED")) [
  | inl c ↦ absorbs "COMPLETED" s refl c r
  | inr d ↦ absorbs "CANCELLED" s refl (ground arith) r
]

-- `COMPLETED` is entered only from `IN_PROGRESS`.
pub completed_from : (s : String) → transition s "COMPLETED" ≡ ok tt → s ≡ "IN_PROGRESS"
unfolding sources
completed_from s h = eq-of_== s "IN_PROGRESS" (
    sources-allowed (λ x. x == "IN_PROGRESS") transitions s "COMPLETED" refl
      (transition-allowed s "COMPLETED" h))

-- A walk to a terminal state, from each state.
abbrev route : String → List String
route s =
    if contains s terminal
    then []
    else if s == "IN_PROGRESS"
    then "COMPLETED" ∷ []
    else "CANCELLED" ∷ []

abbrev ends : String → Bool
ends s = walk transitions s (route s) && contains (last_or s (route s)) terminal

all-ends : all ends states ≡ true
unfolding walk allowed lookup
all-ends = refl

both_true : (a b : Bool) → (a && b) ≡ true → (a ≡ true) × (b ≡ true)
both_true true true h = (refl, refl)
both_true true false h = cc
both_true false b h = cc

-- No callback is stuck: each known state can reach a terminal one.
pub can_end :
    (s : String)
    → contains s states ≡ true
    → (t : String) × Reach transitions s t × (contains t terminal ≡ true)
can_end s h =
    let e = both_true _ _ (contains-of_all ends s states all-ends h) in
    (last_or s (route s), walk-Reach transitions s (route s) e.0, e.1)

size_plus : (s : String) → size (String.◌∷◌ "+" s) ≡ size s + 1
unfolding size
size_plus s = omega arith

keep_plus :
    (is_digit : Char → Bool) (s : String)
    → is_digit "+" ≡ false
    → keep is_digit (String.◌∷◌ "+" (keep is_digit s)) ≡ keep is_digit s
unfolding keep
keep_plus is_digit s p =
    rw p (keep-of_AllChars is_digit (keep is_digit s) (keep-AllChars is_digit s))

-- An accepted phone number is `+` and between 7 and 15 digits, and nothing else of the input.
pub normalized_phone_lem :
    (is_digit : Char → Bool) (value : String) {r : String}
    → normalized_phone is_digit value ≡ ok r
    → (digits : String) × (r ≡ String.◌∷◌ "+" digits)
      × AllChars is_digit digits
      × (7 ≤ size digits)
      × (size digits ≤ 15)
unfolding normalized_phone
normalized_phone_lem is_digit value h =
    let digits = keep is_digit value in
    (
      digits,
      ground (arith, size_plus digits),
      keep-AllChars is_digit value,
      ground (arith, size_plus digits),
      ground (arith, size_plus digits),
    )

-- Normalising twice is normalising once, where `+` is no digit.
pub normalized_phone_idem :
    (is_digit : Char → Bool) (value : String) {r : String}
    → is_digit "+" ≡ false
    → normalized_phone is_digit value ≡ ok r
    → normalized_phone is_digit r ≡ ok r
unfolding normalized_phone
normalized_phone_idem is_digit value p h = ground (arith, keep_plus is_digit value p)

-- An accepted time keeps its instant, and its offset is the one that the named zone has then.
pub canonical_time_lem :
    (zones : ZoneDatabase) (value : DateTime) (timezone : String) {i : ℕ}
    → canonical_time zones value timezone ≡ ok i
    → (i ≡ value.instant)
      × (offset_at : ℕ → ℤ) × (zones timezone ≡ some offset_at)
      × (value.utc_offset ≡ some (offset_at i))
unfolding canonical_time
canonical_time_lem zones value timezone {i = i} h = elim (Option-cases (zones timezone)) [
  | inl missing ↦ ground arith
  | inr (offset_at, e) ↦ elim (Option-cases value.utc_offset) [
    | inl naive ↦ cc (rw (canonical_time, e, naive) at h)
    | inr (offset, f) ↦ elim (Bool-cases (offset_at value.instant == offset)) [
      | inl same ↦
          let k : i ≡ value.instant = cc (rw (canonical_time, e, f, same) at h) in
          (k, offset_at, e, cc (f, k, eq-of_== (offset_at value.instant) offset same))
      | inr other ↦ cc (rw (canonical_time, e, f, other) at h)
    ]
  ]
]

-- A callback is scheduled exactly when all five checks clear it, else compliance blocks it.
pub compliance_state_lem :
    (consent dnc suppressed hours_ok campaign_ok : Bool)
    → ((compliance_state consent dnc suppressed hours_ok campaign_ok).0 ≡ "SCHEDULED") ↔ (
        (consent ≡ true)
        × (dnc ≡ false)
        × (suppressed ≡ false)
        × (hours_ok ≡ true)
        × (campaign_ok ≡ true))
unfolding compliance_state
compliance_state_lem a b c d e = ground (arith, eq_iff "BLOCKED_COMPLIANCE" "SCHEDULED")
