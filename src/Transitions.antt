-- ===== src/Transitions.antt =====
-- Tables of allowed state changes: `dict[str, set[str]]`, as app/core/callbacks.py,
-- app/core/appointments.py and app/core/telephony.py keep them, with what a walk along a table can
-- reach.
use codestra_middleware.Base.{
  ◌≡◌, refl, subst, Bool, true, false, ◌&&◌, ◌||◌, ◌==◌, some, List, [], ◌∷◌, arith, String, Dict,
  lookup, lookup_or, contains, all, if◌then◌else◌, ==_iff, contains-of_all, inl, inr, Option-cases,
  ap, string_eq,
}

abbrev pub Table : Type 0
Table = Dict String (List String)

-- `target in TABLE.get(current, set())`
unfoldable pub allowed : Table → String → String → Bool
unfolding lookup
allowed table current target = contains target (lookup_or current [] table)

-- The states that a walk from `s` reaches.
pub data Reach (table : Table) (s : String) : String → Type 0 where
  here : Reach table s s
  next : {t u : String} → Reach table s t → allowed table t u ≡ true → Reach table s u

-- Each entry of the table whose state passes the first test leads only to states that pass the second.
unfoldable pub leads_to : (String → Bool) → (String → Bool) → Table → Bool
leads_to p q [] = true
leads_to p q ((s, ts) ∷ table) = (if p s then all q ts else true) && leads_to p q table

abbrev pub keeps : (String → Bool) → Table → Bool
keeps p table = leads_to p p table

leads_to-lookup :
    (p q : String → Bool) (table : Table) (s : String) (ts : List String)
    → leads_to p q table ≡ true
    → p s ≡ true
    → lookup s table ≡ some ts
    → all q ts ≡ true
unfolding leads_to lookup
leads_to-lookup p q [] s ts k h e = cc
leads_to-lookup p q ((j, us) ∷ table) s ts k h e =
    ground (arith, leads_to-lookup p q table s ts, ==_iff j s, ap p {x = j} {y = s})

pub leads_to-allowed :
    (p q : String → Bool) (table : Table) (s t : String)
    → leads_to p q table ≡ true
    → p s ≡ true
    → allowed table s t ≡ true
    → q t ≡ true
unfolding allowed
leads_to-allowed p q table s t k h a = elim (Option-cases (lookup s table)) [
  | inl missing ↦ ground arith
  | inr (ts, e) ↦ contains-of_all q t ts (leads_to-lookup p q table s ts k h e) (ground arith)
]

pub keeps-allowed :
    (p : String → Bool) (table : Table) (s t : String)
    → keeps p table ≡ true
    → p s ≡ true
    → allowed table s t ≡ true
    → p t ≡ true
keeps-allowed p table s t k h a = leads_to-allowed p p table s t k h a

-- A test that the table keeps holds of all that is reached from a state that passes it.
pub keeps-Reach :
    (p : String → Bool) (table : Table) {s t : String}
    → keeps p table ≡ true
    → p s ≡ true
    → Reach table s t
    → p t ≡ true
keeps-Reach p table k h here = h
keeps-Reach p table k h (next {t = t} {u = u} r a) =
    keeps-allowed p table t u k (keeps-Reach p table k h r) a

-- A walk through the listed states, from the last to the first.
unfoldable pub walk : Table → String → List String → Bool
walk table s [] = true
walk table s (t ∷ ts) = allowed table s t && walk table t ts

Reach-trans : {table : Table} {s t u : String} → Reach table s t → Reach table t u → Reach table s u
Reach-trans r here = r
Reach-trans r (next q a) = next (Reach-trans r q) a

abbrev pub last_or : String → List String → String
last_or s [] = s
last_or s (t ∷ ts) = last_or t ts

pub walk-Reach :
    (table : Table) (s : String) (ts : List String)
    → walk table s ts ≡ true
    → Reach table s (last_or s ts)
unfolding walk
walk-Reach table s [] h = here
walk-Reach table s (t ∷ ts) h =
    Reach-trans (next here (ground arith)) (walk-Reach table t ts (ground arith))

-- Each entry of the table that leads to `t` belongs to a state that passes the test.
unfoldable pub sources : (String → Bool) → String → Table → Bool
sources p t [] = true
sources p t ((s, ts) ∷ table) = (if contains t ts then p s else true) && sources p t table

sources-lookup :
    (p : String → Bool) (t : String) (table : Table) (s : String) (ts : List String)
    → sources p t table ≡ true
    → lookup s table ≡ some ts
    → contains t ts ≡ true
    → p s ≡ true
unfolding sources lookup
sources-lookup p t [] s ts k e c = cc
sources-lookup p t ((j, us) ∷ table) s ts k e c =
    ground (arith, sources-lookup p t table s ts, ==_iff j s, ap p {x = j} {y = s})

pub sources-allowed :
    (p : String → Bool) (table : Table) (s t : String)
    → sources p t table ≡ true
    → allowed table s t ≡ true
    → p s ≡ true
unfolding allowed
sources-allowed p table s t k a = elim (Option-cases (lookup s table)) [
  | inl missing ↦ ground arith
  | inr (ts, e) ↦ sources-lookup p t table s ts k e (ground arith)
]

-- A walk from a state that passes the test to one that does not meets `x`, where the table leads out of
-- the test only by `x`.
pub walk-meets :
    (p : String → Bool) (x : String) (table : Table) (s t : String) (ts : List String)
    → leads_to p (λ y. p y || y == x) table ≡ true
    → p s ≡ true
    → p t ≡ false
    → walk table s ts ≡ true
    → contains t ts ≡ true
    → contains x ts ≡ true
unfolding walk
walk-meets p x table s t [] k h n w c = cc
walk-meets p x table s t (y ∷ ts) k h n w c =
    let out : p y || y == x ≡ true =
      leads_to-allowed p (λ y. p y || y == x) table s y k h (ground arith) in
    ground (
      arith,
      out,
      walk-meets p x table y t ts k,
      ==_iff y x,
      ==_iff x y,
      ==_iff t y,
      ap p {x = t} {y = y},
    )

-- The table leads nowhere from the state.
unfoldable pub is_dead_end : Table → String → Bool
is_dead_end table s = elim (lookup_or s [] table) [ [] ↦ true | (x ∷ xs) ↦ false ]

dead_end-allowed :
    (table : Table) (s t : String) → is_dead_end table s ≡ true → allowed table s t ≡ true → ⊥
unfolding is_dead_end allowed
dead_end-allowed table s t e a = none_left (lookup_or s [] table) e a
  where
    none_left :
        (ts : List String)
        → (elim ts [ [] ↦ true | (x ∷ xs) ↦ false ]) ≡ true
        → contains t ts ≡ true
        → ⊥
    none_left [] e a = cc a
    none_left (x ∷ xs) e a = cc e

-- A walk does not leave a dead end.
pub dead_end-Reach :
    (table : Table) {s t : String} → is_dead_end table s ≡ true → Reach table s t → t ≡ s
dead_end-Reach table e here = refl
dead_end-Reach table {s = s} e (next {t = t} {u = u} r a) =
    let same = dead_end-Reach table e r in
    absurd (dead_end-allowed table s u e (subst (λ x. allowed table x u ≡ true) same a))
