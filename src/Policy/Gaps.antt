-- ===== src/Policy/Gaps.antt =====
-- What the policy evaluator (app/core/policy_engine.py) lets through although it means to fail closed.
use codestra_middleware.Base.{ℕ, ◌≡◌, refl, true, none, some, ok, >>=-eq-ok, ◌++◌, [], inl}
use codestra_middleware.Clock.{DateTime, ZoneDatabase, minutes}
use codestra_middleware.Policy.{
  DecisionAction, callback, transfer, recording, PolicyRequest, PolicyResult, later, zone_checks,
  checks, reasons, decision, instant_of, evaluate,
}
use codestra_middleware.Policy.Allowance.{MayAct, IsAllowed, allow_iff}

-- The request with other observation times, an empty time zone and another calling window.
abbrev pub unchecked : DateTime → ℕ → ℕ → PolicyRequest → PolicyRequest
unchecked t start end r = record r {
  consent_observed_at = some t;
  dnc_observed_at = some t;
  customer_timezone = some "";
  calling_window_start = some start;
  calling_window_end = some end;
}

acting-kept :
    (r : PolicyRequest) (t : DateTime) (start end : ℕ) (a : DecisionAction)
    → MayAct r a
    → MayAct (unchecked t start end r) a
acting-kept r t start end callback m = m
acting-kept r t start end transfer m = m
acting-kept r t start end recording m = m
acting-kept r t start end _ m = tt

unchecked-IsAllowed :
    (zones : ZoneDatabase) (now : ℕ) (r : PolicyRequest) (t : DateTime) (start end : ℕ)
    → t.utc_offset ≡ none
    → IsAllowed zones now r
    → IsAllowed zones now (unchecked t start end r)
unchecked-IsAllowed zones now r t start end naive a = record {
  running = a.running;
  consented = (a.consented.0, λ aware. absurd (cc (naive, aware)));
  clear = (a.clear.0, λ aware. absurd (cc (naive, aware)));
  eligible = a.eligible;
  placed = a.placed;
  unit = a.unit;
  campaign = a.campaign;
  agent = a.agent;
  acting = acting-kept r t start end r.action a.acting;
  below = a.below;
  spaced = a.spaced;
  open_now = inl refl;
}

unchecked-evaluates :
    (zones : ZoneDatabase) (clock : ℕ) (r : PolicyRequest) (result : PolicyResult) (t : DateTime)
    (start end : ℕ)
    → evaluate zones clock r ≡ ok result
    → (s : PolicyResult) × (evaluate zones clock (unchecked t start end r) ≡ ok s)
unfolding evaluate zone_checks
unchecked-evaluates zones clock r result t start end e =
    let now = instant_of clock r.evaluated_at in
    let x =
      >>=-eq-ok
        (zone_checks zones now r.calling_window_start r.calling_window_end r.customer_timezone) _
        e in
    let y = >>=-eq-ok (later now (minutes 5)) _ x.2 in
    (
      decision (unchecked t start end r) now y.0
          (reasons (checks now (unchecked t start end r) ++ [])),
      rw (y.1) refl,
    )

-- If a request is allowed, so is the same request with consent and the do-not-call list observed at any
-- time that has no offset, however long ago, and with an empty time zone and any calling window,
-- whatever the hour is.
pub unchecked_allowed :
    (zones : ZoneDatabase) (clock : ℕ) (r : PolicyRequest) (result : PolicyResult) (t : DateTime)
    (start end : ℕ)
    → evaluate zones clock r ≡ ok result
    → result.allow ≡ true
    → t.utc_offset ≡ none
    → (s : PolicyResult) × (evaluate zones clock (unchecked t start end r) ≡ ok s)
      × (s.allow ≡ true)
unchecked_allowed zones clock r result t start end e allow naive =
    let (s, f) = unchecked-evaluates zones clock r result t start end e in
    (
      s,
      f,
      (allow_iff zones clock (unchecked t start end r) s f).1 (
          unchecked-IsAllowed zones (instant_of clock r.evaluated_at) r t start end naive
            ((allow_iff zones clock r result e).0 allow)),
    )
