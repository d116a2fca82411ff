-- ===== src/Policy/Allowance.antt =====
-- Exactly which requests the policy evaluator (app/core/policy_engine.py) allows.
use codestra_middleware.Base.{
  ℕ, ◌+◌, ◌≤◌, ◌<◌, ◌≡◌, ◌↔◌, ◌⊎◌, refl, sym, ◌∙◌, Bool, true, false, not, ◌&&◌, ◌||◌, List, [],
  ◌∷◌, ◌++◌, Option, none, some, String, ok, err, ◌>>=◌, >>=-eq-ok, ap, contains, string_eq, All,
  arith, Bool-cases, inl, inr,
}
use codestra_middleware.Clock.{DateTime, ZoneDatabase, seconds, minutes, hours}
use codestra_middleware.Raised.{Outcome}
use codestra_middleware.Text.{is_empty}
use codestra_middleware.Policy.{
  DecisionAction, callback, transfer, recording, PolicyRequest, PolicyResult, is_none, is_true,
  is_false, is_aware, in_window, later, local_time, Check, is_stale, is_outside, is_callback,
  is_transfer, is_recording, attempt_check, spacing_check, checks, hours_check, zone_checks,
  reasons, is_null, instant_of, decision, evaluate,
}

-- An observation is there; if its time has an offset, it is neither in the future nor over a day old.
abbrev pub IsSeen : ℕ → Option DateTime → Type 0
IsSeen now none = ⊥
IsSeen now (some t) = is_aware t ≡ true → (t.instant ≤ now) × (now ≤ t.instant + hours 24)

abbrev pub IsAmong : Option String → Option (List String) → Type 0
IsAmong (some x) (some xs) = contains x xs ≡ true
IsAmong _ _ = ⊥

-- What the action itself asks for.
abbrev pub MayAct : PolicyRequest → DecisionAction → Type 0
MayAct r callback = r.callback_allowed ≡ some true
MayAct r transfer = r.transfer_allowed ≡ some true
MayAct r recording = r.recording_required ≡ some true → r.disclosure_present ≡ some true
MayAct r _ = Unit

abbrev pub IsBelow : Option ℕ → Option ℕ → Type 0
IsBelow (some attempts) (some limit) = attempts < limit
IsBelow _ _ = ⊥

abbrev pub IsSpaced : ℕ → Option ℕ → Option DateTime → Type 0
IsSpaced now none t = ⊥
IsSpaced now (some spacing) none = Unit
IsSpaced now (some spacing) (some t) = (is_aware t ≡ true) × (t.instant + seconds spacing ≤ now)

-- The customer's wall clock stands in the calling window; an empty time zone is not looked up.
abbrev pub IsOpen : ZoneDatabase → ℕ → Option String → Option ℕ → Option ℕ → Type 0
IsOpen zones now (some name) (some start) (some end) =
    (is_empty name ≡ true)
    ⊎ ((local : ℕ) × (local_time zones now name ≡ ok (some local))
        × (in_window local start end ≡ true))
IsOpen zones now _ _ _ = ⊥

pub record IsAllowed (zones : ZoneDatabase) (now : ℕ) (r : PolicyRequest) : Type 0 where
  pub running : r.emergency_kill_switch ≡ some false
  pub consented : (r.consent_allowed ≡ some true) × IsSeen now r.consent_observed_at
  pub clear : (r.dnc_suppressed ≡ some false) × IsSeen now r.dnc_observed_at
  pub eligible : r.channel_eligible ≡ some true
  pub placed : is_none r.jurisdiction ≡ false
  pub unit : IsAmong r.business_unit r.allowed_business_units
  pub campaign : IsAmong r.campaign r.allowed_campaigns
  pub agent : IsAmong r.agent r.allowed_agents
  pub acting : MayAct r r.action
  pub below : IsBelow r.attempts r.max_attempts
  pub spaced : IsSpaced now r.minimum_spacing_seconds r.last_attempt_at
  pub open_now : IsOpen zones now r.customer_timezone r.calling_window_start r.calling_window_end

abbrev Passes : List Check → Type 0
Passes cs = All (λ c. c.0 ≡ false) cs

reasons-null : (cs : List Check) → (is_null (reasons cs) ≡ true) ↔ Passes cs
unfolding reasons
reasons-null [] = (λ e. tt, λ e. refl)
reasons-null ((true, x) ∷ cs) = (λ e. absurd (cc), λ e. absurd (cc (e.0)))
reasons-null ((false, x) ∷ cs) = (λ e. (refl, (reasons-null cs).0 e), λ e. (reasons-null cs).1 e.1)

Passes-append : (cs ds : List Check) → Passes (cs ++ ds) ↔ (Passes cs × Passes ds)
Passes-append [] ds = (λ p. (tt, p), λ p. p.1)
Passes-append (c ∷ cs) ds = (
  λ p. ((p.0, ((Passes-append cs ds).0 p.1).0), ((Passes-append cs ds).0 p.1).1),
  λ p. (p.0.0, (Passes-append cs ds).1 (p.0.1, p.1)),
)

seen :
    (now : ℕ) (t : Option DateTime)
    → ((is_none t ≡ false) × (is_stale now t ≡ false)) ↔ IsSeen now t
seen now none = (λ p. absurd (cc (p.0)), λ p. absurd p)
seen now (some t) = ground arith

among :
    (x : Option String) (xs : Option (List String))
    → ((is_none x || is_none xs ≡ false) × (is_outside x xs ≡ false)) ↔ IsAmong x xs
among none xs = (λ p. absurd (cc (p.0)), λ p. absurd p)
among (some x) none = (λ p. absurd (cc (p.0)), λ p. absurd p)
among (some x) (some xs) = ground arith

acts :
    (r : PolicyRequest) (a : DecisionAction)
    → ((is_callback a && not (is_true r.callback_allowed) ≡ false)
        × (is_transfer a && not (is_true r.transfer_allowed) ≡ false)
        × (is_recording a && is_true r.recording_required && not (is_true r.disclosure_present)
            ≡ false))
      ↔ MayAct r a
acts r callback = ground arith
acts r transfer = ground arith
acts r recording = ground arith
acts r _ = ground arith

attempt_check-IsBelow : (n limit : Option ℕ) → ((attempt_check n limit).0 ≡ false) ↔ IsBelow n limit
unfolding attempt_check
attempt_check-IsBelow (some n) (some limit) = ground arith
attempt_check-IsBelow none limit = (λ p. absurd (cc), λ p. absurd p)
attempt_check-IsBelow (some n) none = (λ p. absurd (cc), λ p. absurd p)

spacing :
    (now : ℕ) (s : Option ℕ) (t : Option DateTime)
    → ((spacing_check now s t).0 ≡ false) ↔ IsSpaced now s t
unfolding spacing_check
spacing now none t = (λ p. absurd (cc), λ p. absurd p)
spacing now (some s) none = (λ p. tt, λ p. refl)
spacing now (some s) (some t) = ground arith

in_hours :
    (start end : ℕ) (m : Outcome (Option ℕ)) (last : List Check)
    → (m >>= λ local. ok (hours_check (some start) (some end) local ∷ [])) ≡ ok last
    → Passes last ↔ ((local : ℕ) × (m ≡ ok (some local)) × (in_window local start end ≡ true))
unfolding hours_check
in_hours start end (err x) last e = absurd (cc)
in_hours start end (ok none) last e =
    let is : last ≡ (true, "invalid_customer_timezone") ∷ [] = cc in
    rw is (λ p. absurd (cc (p.0)), λ p. absurd (cc (p.1)))
in_hours start end (ok (some l)) last e =
    let is : last ≡ (not (in_window l start end), "outside_calling_hours") ∷ [] = cc in
    rw is (
      λ p. (l, refl, ground (arith, p.0)),
      λ p. let same : l ≡ p.0 = cc (p.1) in (rw (same, p.2) refl, tt),
    )

zone_checks-IsOpen :
    (zones : ZoneDatabase) (now : ℕ) (name : String) (start end : ℕ) (last : List Check)
    → zone_checks zones now (some start) (some end) (some name) ≡ ok last
    → Passes last ↔ IsOpen zones now (some name) (some start) (some end)
unfolding zone_checks
zone_checks-IsOpen zones now name start end last e = elim (Bool-cases (is_empty name)) [
  | inl empty ↦ let is : last ≡ [] = cc (rw empty at e) in rw is (λ p. inl empty, λ p. tt)
  | inr named ↦
      let h = in_hours start end (local_time zones now name) last (rw named at e) in
      (λ p. inr (h.0 p), λ p. elim p [ inl empty ↦ absurd (cc) | inr hours ↦ h.1 hours ])
]

opened :
    (zones : ZoneDatabase) (now : ℕ) (name : Option String) (start end : Option ℕ)
    (last : List Check)
    → zone_checks zones now start end name ≡ ok last
    → ((is_none name ≡ false) × (is_none start || is_none end ≡ false) × Passes last)
      ↔ IsOpen zones now name start end
opened zones now none start end last e = (λ p. absurd (cc (p.0)), λ p. absurd p)
opened zones now (some name) none end last e = (λ p. absurd (cc (p.1)), λ p. absurd p)
opened zones now (some name) (some start) none last e = (λ p. absurd (cc (p.1)), λ p. absurd p)
opened zones now (some name) (some start) (some end) last e =
    let h = zone_checks-IsOpen zones now name start end last e in
    (λ p. h.0 p.2, λ p. (refl, refl, h.1 p))

given : (o : Option Bool) → ((is_none o ≡ false) × (is_false o ≡ false)) ↔ (o ≡ some true)
given none = (λ p. absurd (cc (p.0)), λ p. absurd (cc))
given (some true) = (λ p. refl, λ p. (refl, refl))
given (some false) = (λ p. absurd (cc (p.1)), λ p. absurd (cc))

denied : (o : Option Bool) → ((is_none o ≡ false) × (is_true o ≡ false)) ↔ (o ≡ some false)
denied none = (λ p. absurd (cc (p.0)), λ p. absurd (cc))
denied (some false) = (λ p. refl, λ p. (refl, refl))
denied (some true) = (λ p. absurd (cc (p.1)), λ p. absurd (cc))

neither : (a b : Bool) → (a || b ≡ false) ↔ ((a ≡ false) × (b ≡ false))
neither a b = ground arith

module _ (zones : ZoneDatabase) (now : ℕ) (r : PolicyRequest) (last : List Check)
    (e : zone_checks zones now r.calling_window_start r.calling_window_end r.customer_timezone
      ≡ ok last) where
  checks-IsAllowed : Passes (checks now r) → Passes last → IsAllowed zones now r
  unfolding checks
  checks-IsAllowed
        (
          mc,
          (
            md,
            (
              mt,
              (
                mj,
                (
                  mch,
                  (
                    mu,
                    (
                      mca,
                      (
                        mag,
                        (
                          mk,
                          (
                            sc,
                            (
                              sd,
                              (
                                kill,
                                (
                                  nc,
                                  (
                                    nd,
                                    (
                                      nch,
                                      (ou, (oc, (oa, (cb, (tr, (rec, (att, (spa, (hrs, end))))))))),
                                    ),
                                  ),
                                ),
                              ),
                            ),
                          ),
                        ),
                      ),
                    ),
                  ),
                ),
              ),
            ),
          ),
        )
        passed =
      record {
        running = (denied r.emergency_kill_switch).0 (mk, kill);
        consented =
            let m = (neither (is_none r.consent_allowed) (is_none r.consent_observed_at)).0 mc in
            ((given r.consent_allowed).0 (m.0, nc), (seen now r.consent_observed_at).0 (m.1, sc));
        clear =
            let m = (neither (is_none r.dnc_suppressed) (is_none r.dnc_observed_at)).0 md in
            ((denied r.dnc_suppressed).0 (m.0, nd), (seen now r.dnc_observed_at).0 (m.1, sd));
        eligible = (given r.channel_eligible).0 (mch, nch);
        placed = mj;
        unit = (among r.business_unit r.allowed_business_units).0 (mu, ou);
        campaign = (among r.campaign r.allowed_campaigns).0 (mca, oc);
        agent = (among r.agent r.allowed_agents).0 (mag, oa);
        acting = (acts r r.action).0 (cb, tr, rec);
        below = (attempt_check-IsBelow r.attempts r.max_attempts).0 att;
        spaced = (spacing now r.minimum_spacing_seconds r.last_attempt_at).0 spa;
        open_now =
            (opened zones now r.customer_timezone r.calling_window_start r.calling_window_end last
                e).0
              (mt, hrs, passed);
      }

  checks-Passes : IsAllowed zones now r → Passes (checks now r) × Passes last
  unfolding checks
  checks-Passes a =
      let c = (given r.consent_allowed).1 a.consented.0 in
      let cs = (seen now r.consent_observed_at).1 a.consented.1 in
      let d = (denied r.dnc_suppressed).1 a.clear.0 in
      let ds = (seen now r.dnc_observed_at).1 a.clear.1 in
      let k = (denied r.emergency_kill_switch).1 a.running in
      let ch = (given r.channel_eligible).1 a.eligible in
      let u = (among r.business_unit r.allowed_business_units).1 a.unit in
      let ca = (among r.campaign r.allowed_campaigns).1 a.campaign in
      let ag = (among r.agent r.allowed_agents).1 a.agent in
      let act = (acts r r.action).1 a.acting in
      let o =
        (opened zones now r.customer_timezone r.calling_window_start r.calling_window_end last e).1
          a.open_now in
      (
        (
          (neither (is_none r.consent_allowed) (is_none r.consent_observed_at)).1 (c.0, cs.0),
          (
            (neither (is_none r.dnc_suppressed) (is_none r.dnc_observed_at)).1 (d.0, ds.0),
            (
              o.0,
              (
                a.placed,
                (
                  ch.0,
                  (
                    u.0,
                    (
                      ca.0,
                      (
                        ag.0,
                        (
                          k.0,
                          (
                            cs.1,
                            (
                              ds.1,
                              (
                                k.1,
                                (
                                  c.1,
                                  (
                                    d.1,
                                    (
                                      ch.1,
                                      (
                                        u.1,
                                        (
                                          ca.1,
                                          (
                                            ag.1,
                                            (
                                              act.0,
                                              (
                                                act.1,
                                                (
                                                  act.2,
                                                  (
                                                    (attempt_check-IsBelow r.attempts
                                                          r.max_attempts).1
                                                        a.below,
                                                    (
                                                      (spacing now r.minimum_spacing_seconds
                                                            r.last_attempt_at).1
                                                          a.spaced,
                                                      (o.1, tt),
                                                    ),
                                                  ),
                                                ),
                                              ),
                                            ),
                                          ),
                                        ),
                                      ),
                                    ),
                                  ),
                                ),
                              ),
                            ),
                          ),
                        ),
                      ),
                    ),
                  ),
                ),
              ),
            ),
          ),
        ),
        o.2,
      )

evaluate-runs :
    (zones : ZoneDatabase) (clock : ℕ) (r : PolicyRequest) (result : PolicyResult)
    → evaluate zones clock r ≡ ok result
    → (last : List Check) × (zone_checks zones
          (instant_of clock r.evaluated_at)
          r.calling_window_start
          r.calling_window_end
          r.customer_timezone
        ≡ ok last)
      × (result.allow ≡ is_null (reasons (checks (instant_of clock r.evaluated_at) r ++ last)))
unfolding evaluate
evaluate-runs zones clock r result e =
    let now = instant_of clock r.evaluated_at in
    let x =
      >>=-eq-ok
        (zone_checks zones now r.calling_window_start r.calling_window_end r.customer_timezone) _
        e in
    let y = >>=-eq-ok (later now (minutes 5)) _ x.2 in
    let same : decision r now y.0 (reasons (checks now r ++ x.0)) ≡ result = cc (y.2) in
    (x.0, x.1, ap (λ s. s.allow) (sym same))

-- A request is allowed if and only if the kill switch is off, consent is granted and the do-not-call
-- list does not hold the customer, both observed neither in the future nor more than a day ago where
-- the time of the observation has an offset, the channel is eligible, a jurisdiction is given, the unit,
-- the campaign and the agent are among those allowed, the action's own permission is there, the
-- attempts are below their limit and spaced, and the customer's wall clock is in the calling window or
-- the name of the time zone is empty.
pub allow_iff :
    (zones : ZoneDatabase) (clock : ℕ) (r : PolicyRequest) (result : PolicyResult)
    → evaluate zones clock r ≡ ok result
    → (result.allow ≡ true) ↔ IsAllowed zones (instant_of clock r.evaluated_at) r
allow_iff zones clock r result e =
    let now = instant_of clock r.evaluated_at in
    let (last, found, allow) = evaluate-runs zones clock r result e in
    let passes = reasons-null (checks now r ++ last) in
    let both = Passes-append (checks now r) last in
    (
      λ h.
          let p = both.0 (passes.0 (sym allow ∙ h)) in
          checks-IsAllowed zones now r last found p.0 p.1,
      λ a. allow ∙ passes.1 (both.1 (checks-Passes zones now r last found a)),
    )
