-- ===== src/Reliability/Gates.antt =====
-- The gates of app/core/reliability.py: who may be called, who may be transferred, and what a
-- reconciliation reports.
use codestra_middleware.Base.{
  ◌≡◌, ◌↔◌, refl, ap, Bool, true, false, not, ◌&&◌, some, List, [], ◌∷◌, String, contains, select,
  string_eq, ==_iff, arith,
}
use codestra_middleware.Reliability.{authorize_transfer, reconcile}

-- A transfer is authorized if and only if the contact may be called, the caller is authenticated as a
-- supervisor or a manager, the campaign is the test campaign, and live transfers are on.
pub authorize_transfer_iff :
    (dnc authenticated : Bool) (role campaign_id : String) (live_enabled : Bool)
    → ((authorize_transfer dnc authenticated role campaign_id live_enabled).0 ≡ true) ↔ (
        (dnc ≡ false)
        × (authenticated ≡ true)
        × (contains role ("supervisor" ∷ "manager" ∷ []) ≡ true)
        × (campaign_id ≡ "TEST_SYN")
        × (live_enabled ≡ true))
unfolding authorize_transfer
authorize_transfer_iff dnc authenticated role campaign_id live_enabled =
    ground (arith, ==_iff campaign_id "TEST_SYN")

contains-select :
    (p : String → Bool) (x : String) (xs : List String)
    → contains x (select p xs) ≡ (contains x xs && p x)
contains-select p x [] = refl
contains-select p x (y ∷ ys) =
    ground (arith, contains-select p x ys, ==_iff x y, ap p {x = x} {y = y})

-- What is missing is exactly what the authority has and the observer has not, and the other way round
-- for what is unexpected; nothing is both.
pub reconcile_lem :
    (authoritative observed : List String) (cursor x : String)
    → (contains x (reconcile authoritative observed cursor).0.missing
        ≡ (contains x authoritative && not (contains x observed)))
      × (contains x (reconcile authoritative observed cursor).0.unexpected
          ≡ (contains x observed && not (contains x authoritative)))
      × ((reconcile authoritative observed cursor).1 ≡ some cursor)
unfolding reconcile
reconcile_lem authoritative observed cursor x = (
  contains-select (λ y. not (contains y observed)) x authoritative,
  contains-select (λ y. not (contains y authoritative)) x observed,
  refl,
)
