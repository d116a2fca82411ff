-- ===== src/Telephony/Audit.antt =====
-- Which extensions the audit of app/core/telephony.py calls available.
use Prim.Native.String.{compare}
use package.text.Mathlib.Text.{is_lt}
use codestra_middleware.Base.{
  contains-of_all, all, ℕ, ◌≡◌, ◌≢◌, ◌↔◌, All, refl, sym, ◌∙◌, ap, Bool, true, false, not, ◌&&◌,
  ◌||◌, some, List, [], ◌∷◌, map, String, any, contains, select, nat_eq, string_eq, ◌==◌, ==_refl,
  eq-of_==, Dict, lookup, lookup_or, arith, Bool-cases, inl, inr, true≢false,
}
use codestra_middleware.Controller.Tasks.{insert_sorted, sorted_set}
use codestra_middleware.Telephony.{
  available, authoritative_sources, active_markers, assigned_markers, reserved_markers,
  historical_markers, collision_markers, clear_values, normalized, missing, collisions, has_marker,
  is_clear, is_none, classify, audit_extension,
}
use codestra_middleware.Telephony.Evidence.{
  IsFree, Reports, ShowsNone, HasCooledDown, not_fixed, select-none, five-one, HasCooledDown-iff,
  IsFree-ShowsNone,
}

second_true : (a b : Bool) → a && b ≡ true → b ≡ true
second_true true b h = h
second_true false b h = cc

any-insert_sorted :
    (p : String → Bool) (x : String) (xs : List String)
    → any p (insert_sorted x xs) ≡ (p x || any p xs)
unfolding insert_sorted
any-insert_sorted p x [] = refl
any-insert_sorted p x (y ∷ ys) = elim (Bool-cases (x == y)) [
  | inl same ↦ ground (arith, same, ap p (eq-of_== x y same))
  | inr other ↦ elim (Bool-cases (is_lt (compare x y))) [
    | inl less ↦ rw (other, less) refl
    | inr more ↦ rw (other, more) (ground (arith, any-insert_sorted p x ys))
  ]
]

any-sorted_set : (p : String → Bool) (xs : List String) → any p (sorted_set xs) ≡ any p xs
unfolding sorted_set
any-sorted_set p [] = refl
any-sorted_set p (x ∷ xs) =
    ground (arith, any-insert_sorted p x (sorted_set xs), any-sorted_set p xs)

any-keys :
    (p : String → Bool) (q : String × String → Bool) (d : Dict String String)
    → any p (map (λ e. e.0) (select q d)) ≡ any (λ e. q e && p e.0) d
any-keys p q [] = refl
any-keys p q (e ∷ d) = ground (arith, any-keys p q d)

any-of_lookup :
    (f : String × String → Bool) (k v : String) (d : Dict String String)
    → lookup k d ≡ some v
    → f (k, v) ≡ true
    → any f d ≡ true
unfolding lookup
any-of_lookup f k v [] e h = cc
any-of_lookup f k v ((j, w) ∷ d) e h = elim (Bool-cases (j == k)) [
  | inl same ↦
      let here : w ≡ v = cc (rw same at e) in
      let yes_here : f (j, w) ≡ true = rw (eq-of_== j k same, here) h in ground (arith, yes_here)
  | inr other ↦ ground (arith, any-of_lookup f k v d (rw other at e) h)
]

-- An entry that passes a test, with what its key stands for.
any-entry :
    (f : String × String → Bool) (d : Dict String String)
    → any f d ≡ true
    → (e : String × String) × (v : String) × (f e ≡ true) × (lookup e.0 d ≡ some v)
unfolding lookup
any-entry f [] h = cc
any-entry f ((j, w) ∷ d) h = elim (Bool-cases (f (j, w))) [
  | inl here ↦ ((j, w), w, here, rw (==_refl j) refl)
  | inr there ↦
      let (e, v, passes, known) = any-entry f d (ground arith) in
      elim (Bool-cases (j == e.0)) [
        | inl same ↦ (e, w, passes, rw same refl)
        | inr other ↦ (e, v, passes, rw other known)
      ]
]

module _ (markers : List String) (evidence : Dict String String) where
  abbrev shows : String × String → Bool
  shows e = not (contains e.1 clear_values) && contains (lookup_or e.0 "" evidence) markers

  has_marker-any : has_marker markers evidence ≡ any shows evidence
  unfolding has_marker collisions
  has_marker-any =
      any-sorted_set (λ key. contains (lookup_or key "" evidence) markers) _
      ∙ any-keys (λ key. contains (lookup_or key "" evidence) markers)
          (λ e. not (contains e.1 clear_values)) evidence

  has_marker_iff :
      all (λ value. not (contains value clear_values)) markers ≡ true
      → (has_marker markers evidence ≡ false) ↔ IsFree markers evidence
  has_marker_iff apart = (
    λ none_shown key value known. elim (Bool-cases (contains value markers)) [
      | inl marked ↦
          let unclear =
            contains-of_all (λ v. not (contains v clear_values)) value markers apart marked in
          let shown : shows (key, value) ≡ true = rw known (ground (arith, unclear, marked)) in
          absurd (
            true≢false (
              sym (any-of_lookup shows key value evidence known shown)
              ∙ sym has_marker-any
              ∙ none_shown))
      | inr unmarked ↦ unmarked
    ],
    λ free. elim (Bool-cases (has_marker markers evidence)) [
      | inl some_shown ↦
          let (e, v, passes, known) = any-entry shows evidence (sym has_marker-any ∙ some_shown) in
          let marked : contains v markers ≡ true = second_true _ _ (rw known at passes) in
          absurd (true≢false (sym marked ∙ free e.0 v known))
      | inr no_shown ↦ no_shown
    ],
  )

classify-guards :
    (extension : ℕ) (evidence : Dict String String)
    → (classify extension evidence ≡ available) ↔ (
        (contains extension (1001 ∷ 6101 ∷ []) ≡ false)
        × (is_none (missing evidence) ≡ true)
        × (is_clear (lookup "cooldown" evidence) ≡ true)
        × (has_marker active_markers evidence ≡ false)
        × (has_marker collision_markers evidence ≡ false)
        × (has_marker historical_markers evidence ≡ false)
        × (has_marker reserved_markers evidence ≡ false)
        × (has_marker assigned_markers evidence ≡ false))
unfolding classify
classify-guards extension evidence = ground arith

is_none_iff : (xs : List String) → (is_none xs ≡ true) ↔ (xs ≡ [])
is_none_iff [] = (λ _. refl, λ _. refl)
is_none_iff (x ∷ xs) = (λ e. cc e, λ e. cc e)

-- An extension is classified as available if and only if it is neither 1001 nor 6101, each of the 23
-- sources has reported on it, its cooldown is reported as over, and no source shows one of the nine
-- known markers. Values are read in upper case; any other value, that the audit does not know, counts
-- as clear.
pub audit_extension-available :
    (extension : ℕ) (evidence : Dict String String)
    → ((audit_extension extension evidence).classification ≡ available) ↔ (
        (extension ≢ 1001)
        × (extension ≢ 6101)
        × All (Reports evidence) (
            "asterisk_channel" ∷ "call_history" ∷ "chan_sip_peer" ∷ "configuration_include"
            ∷ "cooldown" ∷ "deprovisioning_record" ∷ "dialplan" ∷ "historical_reservation"
            ∷ "middleware_reservation" ∷ "odoo_assignment" ∷ "odoo_provisioning_request"
            ∷ "pjsip_aor" ∷ "pjsip_auth" ∷ "pjsip_contact" ∷ "pjsip_endpoint" ∷ "postgres_lease"
            ∷ "redis_lease" ∷ "registration" ∷ "static_queue" ∷ "vicidial_phone"
            ∷ "vicidial_session" ∷ "vicidial_user" ∷ "voicemail" ∷ [])
        × HasCooledDown evidence
        × ShowsNone
            ("ACTIVE" ∷ "COLLISION" ∷ "CONFLICT" ∷ "HISTORICAL_HOLD" ∷ "AMBIGUOUS" ∷ "RESERVED"
              ∷ "LEASED" ∷ "ASSIGNED" ∷ "PRESENT" ∷ [])
            evidence)
unfolding audit_extension missing
audit_extension-available extension evidence =
    let n = normalized evidence in
    let g = classify-guards extension n in
    let fixed = not_fixed extension in
    let a = has_marker_iff active_markers n refl in
    let c = has_marker_iff collision_markers n refl in
    let h = has_marker_iff historical_markers n refl in
    let r = has_marker_iff reserved_markers n refl in
    let s = has_marker_iff assigned_markers n refl in
    let a' = IsFree-ShowsNone active_markers evidence in
    let c' = IsFree-ShowsNone collision_markers evidence in
    let h' = IsFree-ShowsNone historical_markers evidence in
    let r' = IsFree-ShowsNone reserved_markers evidence in
    let s' = IsFree-ShowsNone assigned_markers evidence in
    let m = is_none_iff (missing n) in
    let all_report = select-none evidence authoritative_sources in
    let cool = HasCooledDown-iff evidence in
    let five = five-one evidence in
    (
      λ e.
          let (ext, none_missing, clear, e₁, e₂, e₃, e₄, e₅) = g.0 e in
          (
            (fixed.0 ext).0,
            (fixed.0 ext).1,
            all_report.0 (m.0 none_missing),
            cool.0 clear,
            five.0 (a'.0 (a.0 e₁), c'.0 (c.0 e₂), h'.0 (h.0 e₃), r'.0 (r.0 e₄), s'.0 (s.0 e₅)),
          ),
      λ (ext, ext', reported, over, none_shown).
          let (f₁, f₂, f₃, f₄, f₅) = five.1 none_shown in
          g.1 (
            fixed.1 (ext, ext'),
            m.1 (all_report.1 reported),
            cool.1 over,
            a.1 (a'.1 f₁),
            c.1 (c'.1 f₂),
            h.1 (h'.1 f₃),
            r.1 (r'.1 f₄),
            s.1 (s'.1 f₅),
          ),
    )
