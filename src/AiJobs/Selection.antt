-- ===== src/AiJobs/Selection.antt =====
-- Which job a claim takes (claim of app/core/ai_jobs.py).
use codestra_middleware.Base.{
  ℕ, ◌+◌, ◌<◌, ◌≤◌, ◌≡◌, ◌⊎◌, refl, sym, ap, subst, ◌∙◌, Bool, true, false, not, ◌&&◌, List, [],
  ◌∷◌, Option, none, some, String, ok, Dict, ◌==◌, string_eq, lookup, insert, keys, contains,
  ==_iff, >>=-elim, Bool-cases, inl, inr, arith,
}
use codestra_middleware.Raised.{Outcome}
use codestra_middleware.Clock.{seconds}
use codestra_middleware.AiJobs.{leased, Job, Queue, audit}
use codestra_middleware.AiJobs.Profiles.{effective_compatible_profiles}
use codestra_middleware.AiJobs.Admission.{
  Claim, comes_before, better, candidate, claimed, is_claimable, profile_filter, check_filter,
  admit, take, claim_among, claim,
}
use codestra_middleware.AiJobs.Arrivals.{Passes, candidate-Passes}
use codestra_middleware.AiJobs.Readiness.{IsReady, is_claimable_iff, comes_before-not}

-- No row that passes the test comes before the candidate; without one, no row passes.
abbrev IsFirst : (Job → Bool) → Job → Option (String × Job) → Type 0
IsFirst test other none = test other ≡ false
IsFirst test other (some (id, job)) = test other ≡ true → comes_before other job ≡ false

comes_before_trans :
    (a b c : Job) → comes_before b c ≡ false → comes_before a b ≡ false → comes_before a c ≡ false
unfolding comes_before
comes_before_trans a b c e f = ground arith

comes_before_asym : (a b : Job) → comes_before a b ≡ true → comes_before b a ≡ false
unfolding comes_before
comes_before_asym a b e = ground arith

comes_before_irrefl : (a : Job) → comes_before a a ≡ false
unfolding comes_before
comes_before_irrefl a = ground arith

-- The rows after the first one.
better-IsFirst :
    (test : Job → Bool) (id : String) (o : Option Job) (rest : Option (String × Job)) (other : Job)
    → IsFirst test other rest
    → IsFirst test other (better test id o rest)
unfolding better
better-IsFirst test id none rest other p = p
better-IsFirst test id (some job) none other p = elim (Bool-cases (test job)) [
  | inl passes ↦ rw passes (λ e. absurd (cc))
  | inr fails ↦ rw fails p
]
better-IsFirst test id (some job) (some (id', best)) other p =
    elim (Bool-cases (test job && not (comes_before best job))) [
      | inl first ↦ rw first (λ e. comes_before_trans other best job (ground arith) (p e))
      | inr later ↦ rw later p
    ]

-- The first one.
better-IsFirst_self :
    (test : Job → Bool) (id : String) (o : Option Job) (rest : Option (String × Job)) (job : Job)
    → o ≡ some job
    → IsFirst test job (better test id o rest)
unfolding better
better-IsFirst_self test id none rest job e = absurd (cc)
better-IsFirst_self test id (some other) none job e = elim (Bool-cases (test other)) [
  | inl passes ↦
      rw passes (λ t. subst (λ x. comes_before x other ≡ false) (cc) (comes_before_irrefl other))
  | inr fails ↦ rw fails (subst (λ x. test x ≡ false) (cc) fails)
]
better-IsFirst_self test id (some other) (some (id', best)) job e =
    elim (Bool-cases (test other && not (comes_before best other))) [
      | inl first ↦
          rw first (λ t. subst (λ x. comes_before x other ≡ false) (cc) (comes_before_irrefl other))
      | inr later ↦ rw later (
          subst (λ x. test x ≡ true → comes_before x best ≡ false) (cc)
            (λ t. comes_before_asym best other (ground arith)))
    ]

candidate-IsFirst :
    (test : Job → Bool) (jobs : Dict String Job) (ids : List String) (id : String) (other : Job)
    → contains id ids ≡ true
    → lookup id jobs ≡ some other
    → IsFirst test other (candidate test jobs ids)
unfolding candidate
candidate-IsFirst test jobs [] id other c e = absurd (cc)
candidate-IsFirst test jobs (i ∷ ids) id other c e = elim (Bool-cases (id == i)) [
  | inl same ↦
      better-IsFirst_self test i (lookup i jobs) (candidate test jobs ids) other
        (subst (λ x. lookup x jobs ≡ some other) ((==_iff id i).0 same) e)
  | inr differs ↦
      better-IsFirst test i (lookup i jobs) (candidate test jobs ids) other
        (candidate-IsFirst test jobs ids id other (ground arith) e)
]

lookup-keys :
    (id : String) (jobs : Dict String Job) (j : Job)
    → lookup id jobs ≡ some j
    → contains id (keys jobs) ≡ true
unfolding lookup
lookup-keys id [] j e = absurd (cc)
lookup-keys id ((i, k) ∷ jobs) j e = ground (arith, lookup-keys id jobs j, ==_iff i id, ==_iff id i)

-- What a claim that takes a job has found, in the terms of the code.
pub record Found (now : ℕ) (c : Claim) (profiles : Option (List String)) (id : String) (row : Job)
    (q q' : Queue) : Type 0 where
  pub old : Job
  pub found : lookup id q.jobs ≡ some old
  pub ready : is_claimable now c profiles old ≡ true
  pub new : row ≡ claimed now c old
  pub stored : q'.jobs ≡ insert id row q.jobs
  pub first :
      (other_id : String) (other : Job)
      → lookup other_id q.jobs ≡ some other
      → is_claimable now c profiles other ≡ true
      → comes_before other old ≡ false

take-Found :
    (now : ℕ) (c : Claim) (profiles : Option (List String)) (id : String) (row : Job) (q q' : Queue)
    (found : Option (String × Job))
    → Passes (is_claimable now c profiles) q.jobs found
    → ((i : String) (other : Job)
        → lookup i q.jobs ≡ some other
        → IsFirst (is_claimable now c profiles) other found)
    → take now c q found ≡ (some (id, row), q')
    → Found now c profiles id row q q'
unfolding take audit
take-Found now c profiles id row q q' none p first e = absurd (cc)
take-Found now c profiles id row q q' (some (i, j)) p first e =
    let is_id : i ≡ id = cc (ap (λ x. x.0) e) in
    let is_row : row ≡ claimed now c j = cc (ap (λ x. x.0) e) in
    record {
      old = j;
      found = subst (λ x. lookup x q.jobs ≡ some j) is_id p.0;
      ready = p.1;
      new = is_row;
      stored =
          sym (ap (λ x. x.1.jobs) e)
          ∙ subst (λ x. insert i (claimed now c j) q.jobs ≡ insert x (claimed now c j) q.jobs) is_id
              refl
          ∙ ap (λ x. insert id x q.jobs) (sym is_row);
      first = first;
    }

ok-injective {ℓ} : {A : Type ℓ} {x y : A} → ◌≡◌ {A = Outcome A} (ok x) (ok y) → x ≡ y
ok-injective e = cc

claim_among-Found :
    (now : ℕ) (c : Claim) (profiles : List String) (id : String) (row : Job) (q q' : Queue)
    → claim_among now c profiles q ≡ (some (id, row), q')
    → Found now c (profile_filter c profiles) id row q q'
unfolding claim_among
claim_among-Found now c [] id row q q' e = absurd (cc (ap (λ x. x.0) e))
claim_among-Found now c (p ∷ ps) id row q q' e =
    let test = is_claimable now c (profile_filter c (p ∷ ps)) in
    take-Found now c (profile_filter c (p ∷ ps)) id row q q' _
      (candidate-Passes test q.jobs (keys q.jobs))
      (λ i other known.
        candidate-IsFirst test q.jobs (keys q.jobs) i other (lookup-keys i q.jobs other known)
          known)
      e

pub claim-Found :
    (now : ℕ) (c : Claim) (q q' : Queue) (id : String) (row : Job)
    → claim now c q ≡ ok (some (id, row), q')
    → (active : List (Option String)) × (admit now c c.service_id q ≡ ok active)
      × Found now c
          (profile_filter c (effective_compatible_profiles active c.allowed_model_profiles))
          id
          row
          q
          q'
unfolding claim
claim-Found now c q q' id row e =
    >>=-elim (check_filter c.allowed_model_profiles) _ e λ u checked e₁.
      >>=-elim (admit now c c.service_id q) _ e₁ λ active admitted e₂. (
        active,
        admitted,
        claim_among-Found now c (effective_compatible_profiles active c.allowed_model_profiles) id
            row q q' (ok-injective e₂),
      )

-- What a claim that takes a job has done, apart from the code.
pub record Taken (now : ℕ) (c : Claim) (profiles : Option (List String)) (id : String) (row : Job)
    (q q' : Queue) : Type 0 where
  pub old : Job
  pub found : lookup id q.jobs ≡ some old
  pub ready : IsReady now c profiles old
  pub new : row ≡ record old {
    state = leased;
    lease_owner = some c.worker_id;
    lease_expires_at = some (now + seconds c.lease_seconds);
    fencing_token = old.fencing_token + 1;
    attempt_count = old.attempt_count + 1;
    updated_at = now;
  }
  pub stored : q'.jobs ≡ insert id row q.jobs
  pub first :
      (other_id : String) (other : Job)
      → lookup other_id q.jobs ≡ some other
      → IsReady now c profiles other
      → (old.priority < other.priority)
        ⊎ ((old.priority ≡ other.priority) × (old.created_at ≤ other.created_at))

-- A claim that takes a job takes one that waits, is due, is not cancelled or past its deadline, and
-- fits the caller's tenant and the profiles that its admission leaves; no other such job has a smaller
-- priority number, or the same one and an earlier creation. Only that row changes: it is leased to the
-- caller for the time that it asks for, and its token and its attempts go up by one.
pub claim-Taken :
    (now : ℕ) (c : Claim) (q q' : Queue) (id : String) (row : Job)
    → claim now c q ≡ ok (some (id, row), q')
    → (active : List (Option String)) × (admit now c c.service_id q ≡ ok active)
      × Taken now c
          (profile_filter c (effective_compatible_profiles active c.allowed_model_profiles))
          id
          row
          q
          q'
claim-Taken now c q q' id row e =
    let (active, admitted, t) = claim-Found now c q q' id row e in
    let profiles =
      profile_filter c (effective_compatible_profiles active c.allowed_model_profiles) in
    (
      active,
      admitted,
      record {
        old = t.old;
        found = t.found;
        ready = (is_claimable_iff now c profiles t.old).0 t.ready;
        new = t.new;
        stored = t.stored;
        first = λ i other known r.
            comes_before-not other t.old
              (t.first i other known ((is_claimable_iff now c profiles other).1 r));
      },
    )
