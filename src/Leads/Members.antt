-- ===== src/Leads/Members.antt =====
-- The resolution of a lead (app/core/lead_reconciliation.py) goes by the members of the candidates alone.
use codestra_middleware.Base.{
  ◌≡◌, refl, sym, ap, ◌∙◌, Bool, true, false, not, ◌&&◌, ◌||◌, List, [], ◌∷◌, Option, none, some,
  contains, select, ◌==◌, eq-of_==, ==_refl, true≢false, string_eq, nat_eq, pair_eq, arith,
  Bool-cases, inl, inr,
}
use codestra_middleware.Leads.{
  Candidate, review_required, Resolution, resolved, unique, resolve_pair, resolve_sets,
  resolve_identity,
}

-- The same members, in any order and any number of times.
abbrev pub SameMembers : List Candidate → List Candidate → Type 0
SameMembers xs ys = (c : Candidate) → contains c xs ≡ contains c ys

drops : (a b : Bool) → (b && not a) ≡ ((a || b) && not a)
drops a b = ground arith

keeps : (a b : Bool) → (a || (b && not a)) ≡ (a || b)
keeps a b = ground arith

contains-select :
    (c d : Candidate) (xs : List Candidate)
    → contains c (select (λ x. not (x == d)) xs) ≡ (contains c xs && not (c == d))
contains-select c d [] = refl
contains-select c d (x ∷ xs) = elim (Bool-cases (x == d)) [
  | inl same ↦ rw (same, contains-select c d xs, eq-of_== x d same) (drops (c == d) (contains c xs))
  | inr other ↦
      rw (other, contains-select c d xs)
        (elim (Bool-cases (c == x)) [
          | inl is ↦ rw (is, eq-of_== c x is, other) refl
          | inr isnt ↦ rw isnt refl
        ])
]

never : (a b : Bool) → b ≡ true → (a && not b) ≡ false
never a b e = ground arith

contains-unique : (c : Candidate) (xs : List Candidate) → contains c (unique xs) ≡ contains c xs
unfolding unique
contains-unique c [] = refl
contains-unique c (x ∷ xs) =
    rw (contains-select c x (unique xs), contains-unique c xs) (keeps (c == x) (contains c xs))

-- The first member comes once.
abbrev HeadOnce : List Candidate → Type 0
HeadOnce [] = Unit
HeadOnce (c ∷ cs) = contains c cs ≡ false

unique-HeadOnce : (xs : List Candidate) → HeadOnce (unique xs)
unfolding unique
unique-HeadOnce [] = tt
unique-HeadOnce (c ∷ cs) =
    contains-select c c (unique cs) ∙ never (contains c (unique cs)) (c == c) (==_refl c)

-- What a set is for the resolution: empty, of one element, or larger.
pub data Shape : Type 0 where
  empty : Shape
  single : Candidate → Shape
  several : Shape

abbrev pub shape : List Candidate → Shape
shape [] = empty
shape (c ∷ []) = single c
shape (c ∷ d ∷ cs) = several

last_true : (a b c : Bool) → b ≡ true → (a || (b || c)) ≡ true
last_true a b c e = ground arith

-- A member, of a set of one element.
is_single : (c x : Candidate) → (true ≡ (x == c || false)) → x ≡ c
is_single c x e = eq-of_== x c (ground arith)

head_in : (d : Candidate) (xs : List Candidate) → contains d (d ∷ xs) ≡ true
head_in d xs = rw (==_refl d) refl

second_in : (d e : Candidate) (xs : List Candidate) → contains e (d ∷ e ∷ xs) ≡ true
second_in d e xs = last_true (e == d) (e == e) (contains e xs) (==_refl e)

shape-empty : (xs : List Candidate) → ((x : Candidate) → contains x xs ≡ false) → shape xs ≡ empty
shape-empty [] m = refl
shape-empty (c ∷ cs) m = absurd (cc (m c, ==_refl c))

shape-single :
    (c : Candidate) (xs : List Candidate)
    → HeadOnce xs
    → ((x : Candidate) → contains x xs ≡ (x == c || false))
    → shape xs ≡ single c
shape-single c [] once m = absurd (cc (m c, ==_refl c))
shape-single c (d ∷ []) once m = ap single (is_single c d (sym (head_in d []) ∙ m d))
shape-single c (d ∷ e ∷ xs) once m =
    let is_d = is_single c d (sym (head_in d (e ∷ xs)) ∙ m d) in
    let is_e = is_single c e (sym (second_in d e xs) ∙ m e) in
    let again = ap (λ x. contains x (e ∷ xs)) (is_d ∙ sym is_e) ∙ head_in e xs in
    absurd (true≢false (sym again ∙ once))

same-shape :
    (xs ys : List Candidate) → HeadOnce xs → HeadOnce ys → SameMembers xs ys → shape xs ≡ shape ys
same-shape [] ys p q m = sym (shape-empty ys (λ x. sym (m x)))
same-shape (c ∷ []) ys p q m = sym (shape-single c ys q (λ x. sym (m x)))
same-shape (c ∷ d ∷ xs) [] p q m = absurd (cc (shape-empty (c ∷ d ∷ xs) m))
same-shape (c ∷ d ∷ xs) (e ∷ []) p q m = absurd (cc (shape-single e (c ∷ d ∷ xs) p m))
same-shape (c ∷ d ∷ xs) (e ∷ f ∷ ys) p q m = refl

abbrev only_of : Shape → Option Candidate
only_of (single c) = some c
only_of _ = none

-- The resolution by the shapes of the two sets.
abbrev by_shape : Shape → Shape → Resolution
by_shape several e = resolved review_required none "PHONE_AMBIGUOUS"
by_shape p several = resolved review_required none "EMAIL_AMBIGUOUS"
by_shape p e = resolve_pair (only_of p) (only_of e)

resolve_sets-by_shape :
    (xs ys : List Candidate) → resolve_sets xs ys ≡ by_shape (shape xs) (shape ys)
unfolding resolve_sets
resolve_sets-by_shape (c ∷ d ∷ xs) ys = ground arith
resolve_sets-by_shape [] (e ∷ f ∷ ys) = ground arith
resolve_sets-by_shape (c ∷ []) (e ∷ f ∷ ys) = ground arith
resolve_sets-by_shape [] [] = refl
resolve_sets-by_shape [] (e ∷ []) = refl
resolve_sets-by_shape (c ∷ []) [] = refl
resolve_sets-by_shape (c ∷ []) (e ∷ []) = refl

unique-shape : (xs ys : List Candidate) → SameMembers xs ys → shape (unique xs) ≡ shape (unique ys)
unique-shape xs ys m =
    same-shape (unique xs) (unique ys) (unique-HeadOnce xs) (unique-HeadOnce ys)
      λ c. contains-unique c xs ∙ m c ∙ sym (contains-unique c ys)

-- A lead is resolved in the same way whatever the order in which the candidates come, and however often
-- the same one comes: only the members of the two collections count.
pub resolve_identity-SameMembers :
    (mapped_to external : Option Candidate) (phones phones' emails emails' : List Candidate)
    → SameMembers phones phones'
    → SameMembers emails emails'
    → resolve_identity mapped_to external phones emails
      ≡ resolve_identity mapped_to external phones' emails'
unfolding resolve_identity
resolve_identity-SameMembers (some m) external phones phones' emails emails' p e = refl
resolve_identity-SameMembers none (some x) phones phones' emails emails' p e = refl
resolve_identity-SameMembers none none phones phones' emails emails' p e =
    resolve_sets-by_shape (unique phones) (unique emails)
    ∙ ap (λ s. by_shape s (shape (unique emails))) (unique-shape phones phones' p)
    ∙ ap (λ s. by_shape (shape (unique phones')) s) (unique-shape emails emails' e)
    ∙ sym (resolve_sets-by_shape (unique phones') (unique emails'))
