-- ===== src/Callbacks/Deliveries.antt =====
-- Reminder deliveries of the callback API (app/api/v1/callbacks.py): those that a change retires,
-- and the waiting time after a failed one.
use native.Mathlib.Nat.{pow-suc}
use native.Mathlib.Numerals.{towards_suc}
use codestra_middleware.Base.{
  ℕ, zero, suc, ◌+◌, ◌^◌, ◌≤◌, min, ◌≡◌, ◌≢◌, ◌⊎◌, true≢false, contains, refl, sym, subst, ◌∙◌,
  Bool, true, false, ◌&&◌, none, some, List, [], ◌∷◌, map, All, leb, String, ok, arith, string_eq,
  nat_eq, ◌==◌, ==_iff, Bool-cases, inl, inr,
}
use codestra_middleware.Clock.{ZoneDatabase, minutes}
use codestra_middleware.Callbacks.Records.{
  CallbackDelivery, Database, Principal, Change, DeliveryResult, Target, snoozed, rescheduled,
  cancelled, completed, in_progress, reassigned, updated,
}
use codestra_middleware.Callbacks.Api.{
  CallbackView, has_event, mutate, commit, retire, retires, is_waiting, settle_delivery,
}
use codestra_middleware.Callbacks.Store.{fresh-Changed, load-scope, id-find_row}
use codestra_middleware.Callbacks.Revisions.{revise-identity}

-- A delivery of the callback for one of the versions up to `v` that is queued or is to be retried.
abbrev pub IsStale : String → ℕ → CallbackDelivery → Type 0
IsStale callback_id v d =
    (d.callback_id ≡ callback_id)
    × (d.callback_version ≤ v)
    × ((d.status ≡ "QUEUED") ⊎ (d.status ≡ "RETRY_PENDING"))

-- The test of the code.
abbrev is_stale : String → ℕ → CallbackDelivery → Bool
is_stale callback_id v d = d.callback_id == callback_id && leb d.callback_version v && is_waiting d

retire-not_stale :
    (callback_id : String) (v : ℕ) (d : CallbackDelivery)
    → is_stale callback_id v (retire callback_id v d) ≡ false
unfolding retire
retire-not_stale callback_id v d = elim (Bool-cases (is_stale callback_id v d)) [
  | inl stale ↦ rw stale (ground arith)
  | inr live ↦ rw live live
]

map-retire-not_stale :
    (callback_id : String) (v : ℕ) (ds : List CallbackDelivery)
    → All (λ d. is_stale callback_id v d ≡ false) (map (retire callback_id v) ds)
map-retire-not_stale callback_id v [] = tt
map-retire-not_stale callback_id v (d ∷ ds) =
    (retire-not_stale callback_id v d, map-retire-not_stale callback_id v ds)

one_of_two : (x a b : String) → (x ≡ a) ⊎ (x ≡ b) → contains x (a ∷ b ∷ []) ≡ true
one_of_two x a b (inl e) = let same = (==_iff x a).1 e in ground (arith, same)
one_of_two x a b (inr e) = let same = (==_iff x b).1 e in ground (arith, same)

IsStale-tested :
    (callback_id : String) (v : ℕ) (d : CallbackDelivery)
    → IsStale callback_id v d
    → is_stale callback_id v d ≡ true
IsStale-tested callback_id v d h =
    let of_callback : (d.callback_id == callback_id) ≡ true =
      (==_iff d.callback_id callback_id).1 h.0 in
    let waits : is_waiting d ≡ true = one_of_two d.status "QUEUED" "RETRY_PENDING" h.2 in
    let old : leb d.callback_version v ≡ true = ground (arith, h.1) in rw (of_callback, old) waits

All-not-IsStale :
    (callback_id : String) (v : ℕ) (ds : List CallbackDelivery)
    → All (λ d. is_stale callback_id v d ≡ false) ds
    → All (λ d. ¬ IsStale callback_id v d) ds
All-not-IsStale callback_id v [] a = tt
All-not-IsStale callback_id v (d ∷ ds) a = (
  λ h. true≢false (sym (IsStale-tested callback_id v d h) ∙ a.0),
  All-not-IsStale callback_id v ds a.1,
)

all-retire : (target : Target) → target ≢ in_progress → target ≢ updated → retires target ≡ true
all-retire snoozed p u = refl
all-retire rescheduled p u = refl
all-retire cancelled p u = refl
all-retire completed p u = refl
all-retire in_progress p u = absurd (p refl)
all-retire reassigned p u = refl
all-retire updated p u = absurd (u refl)

-- Once a change that snoozes, reschedules, cancels, completes or reassigns a callback is accepted, under a
-- key that the tenant has not used before, no delivery row of it for the version that the change replaced,
-- or for an older one, is queued or is to be retried. The commands of email reminders, which the change leaves alone, are not among these rows.
pub mutate-not-IsStale :
    (zones : ZoneDatabase) (now : ℕ) (event_id callback_id : String) (target : Target)
    (body : Change) (key correlation : String) (db : Database) (p : Principal) (v : CallbackView)
    (db' : Database)
    → mutate zones now event_id callback_id target body key correlation db p ≡ ok (v, db')
    → has_event p.tenant key db.events ≡ false
    → target ≢ in_progress
    → target ≢ updated
    → All (λ d. ¬ IsStale callback_id body.expected_version d) db'.deliveries
unfolding commit
mutate-not-IsStale zones now event_id callback_id target body key correlation db p v db' returned
      fresh moves revises =
    let c =
      fresh-Changed zones now event_id callback_id target body key correlation db p v db' returned
        fresh in
    let found = (load-scope db callback_id p c.old c.loaded).0 in
    let same_id : c.new.id ≡ callback_id =
      (revise-identity zones now target body p c.old c.new c.revised).0
      ∙ id-find_row callback_id db.rows c.old found in
    let r : retires target ≡ true = all-retire target moves revises in
    rw (c.committed, r)
      (All-not-IsStale callback_id body.expected_version _ (
        subst
          (λ i.
            All (λ d. is_stale callback_id body.expected_version d ≡ false)
              (map (retire i body.expected_version) db.deliveries))
          (sym same_id) (map-retire-not_stale callback_id body.expected_version db.deliveries)))

two-le-pow : (n : ℕ) → 2 ≤ 2 ^ (n + 1)
two-le-pow zero = omega arith
two-le-pow (suc n) =
    simp (towards_suc, pow-suc) (omega (arith, simp (towards_suc, pow-suc) at (two-le-pow n)))

-- A failed delivery is tried again after at most an hour, and no sooner than after two minutes; any
-- other result ends its retries.
pub settle_delivery_lem :
    (now : ℕ) (body : DeliveryResult) (d : CallbackDelivery)
    → let e = settle_delivery now body d in
      ((body.status ≡ "FAILED")
        → (t : ℕ) × (e.next_attempt_at ≡ some t)
          × (now + minutes 2 ≤ t)
          × (t ≤ now + minutes 60)
          × (e.attempt_count ≡ d.attempt_count + 1))
      × ((body.status == "FAILED") ≡ false
          → (e.next_attempt_at ≡ none) × (e.attempt_count ≡ d.attempt_count))
unfolding settle_delivery
settle_delivery_lem now body d = (
  λ h.
      let failed : (body.status == "FAILED") ≡ true = (==_iff body.status "FAILED").1 h in
      rw failed (
        now + minutes (min 60 (2 ^ (d.attempt_count + 1))),
        refl,
        omega (arith, two-le-pow d.attempt_count),
        omega arith,
        refl,
      ),
  λ h. rw h (refl, refl),
)
