-- ===== src/Realtime/Log.antt =====
-- The specification of the replay buffer (app/core/realtime.py): a log of all that was published.
use codestra_middleware.Base.{
  ℕ, zero, suc, ◌-◌, ◌≤◌, ◌≡◌, refl, ap, sym, ◌∙◌, Bool, false, not, ◌||◌, List, [], ◌∷◌, ◌++◌,
  append-nil, ltb, ◌==◌, string_eq, nat_eq, pair_eq, length, length-append, length-drop, drop,
  select, any, if◌then◌else◌, arith, Bool-cases, inl, inr,
}
use codestra_middleware.Realtime.{ScreenPop, Identity, identity, append_bounded}

-- Whether the log has an event of this identity.
abbrev pub has : Identity → List ScreenPop → Bool
has i log = any (λ e. i == identity e) log

abbrev differs : Identity → ScreenPop → Bool
differs i e = not (identity e == i)

-- The first event of each identity, in the order of publication.
unfoldable pub firsts : List ScreenPop → List ScreenPop
firsts [] = []
firsts (e ∷ log) = e ∷ select (differs (identity e)) (firsts log)

-- The last `n` elements.
abbrev pub last : {A : Type 0} → ℕ → List A → List A
last n xs = drop (length xs - n) xs

select-append :
    {A : Type 0} (p : A → Bool) (xs ys : List A) → select p (xs ++ ys) ≡ select p xs ++ select p ys
select-append p [] ys = refl
select-append p (x ∷ xs) ys = ground (arith, select-append p xs ys)

pub any-append :
    {A : Type 0} (p : A → Bool) (xs ys : List A) → any p (xs ++ ys) ≡ (any p xs || any p ys)
any-append p [] ys = refl
any-append p (x ∷ xs) ys = ground (arith, any-append p xs ys)

pub firsts-append :
    (log : List ScreenPop) (e : ScreenPop)
    → firsts (log ++ (e ∷ []))
      ≡ (if has (identity e) log then firsts log else firsts log ++ (e ∷ []))
unfolding firsts
firsts-append [] e = refl
firsts-append (d ∷ log) e = rw (firsts-append log e) (elim (Bool-cases (has (identity e) log)) [
  | inl known ↦ rw known (ground arith)
  | inr new ↦
      rw (new, select-append (differs (identity d)) (firsts log) (e ∷ []))
        (elim (Bool-cases (identity e == identity d)) [
          | inl same ↦
              rw same (ap (λ l. d ∷ l) (append-nil (select (differs (identity d)) (firsts log))))
          | inr other ↦ rw other refl
        ])
])

pub drop_empty : {A : Type 0} (n : ℕ) → drop {A = A} n [] ≡ []
drop_empty zero = refl
drop_empty (suc n) = refl

drop-append :
    {A : Type 0} (n : ℕ) (xs ys : List A) → n ≤ length xs → drop n (xs ++ ys) ≡ drop n xs ++ ys
drop-append zero xs ys h = refl
drop-append (suc n) [] ys h = absurd (omega arith)
drop-append (suc n) (x ∷ xs) ys h = drop-append n xs ys (omega arith)

drop-drop : {A : Type 0} (n : ℕ) (xs : List A) → drop 1 (drop n xs) ≡ drop (suc n) xs
drop-drop zero xs = refl
drop-drop (suc n) [] = refl
drop-drop (suc n) (x ∷ xs) = drop-drop n xs

pub append_bounded-last :
    {A : Type 0} (n : ℕ) (xs : List A) (x : A)
    → append_bounded n (last n xs) x ≡ last n (xs ++ (x ∷ []))
unfolding append_bounded
append_bounded-last n xs x = elim (Bool-cases (ltb (length xs) n)) [
  | inl short ↦
      let all : length xs - n ≡ 0 = ground arith in
      let more : length (xs ++ (x ∷ [])) - n ≡ 0 = ground (arith, length-append xs (x ∷ [])) in
      rw (all, more, short) refl
  | inr full ↦
      let keep : length xs - n ≤ length xs = omega arith in
      let rest : length (xs ++ (x ∷ [])) - n ≡ suc (length xs - n) =
        ground (arith, length-append xs (x ∷ [])) in
      let held : ltb (length (last n xs)) n ≡ false =
        ground (arith, length-drop (length xs - n) xs) in
      rw (held, rest)
        (ap (drop 1) (sym (drop-append (length xs - n) xs (x ∷ []) keep))
          ∙ drop-drop (length xs - n) (xs ++ (x ∷ [])))
]
