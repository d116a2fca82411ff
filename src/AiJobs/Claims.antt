-- ===== src/AiJobs/Claims.antt =====
-- How many times a job can be claimed (claim of app/core/ai_jobs.py), over any calls.
use codestra_middleware.Base.{
  ℕ, ◌+◌, ◌≤◌, ◌≡◌, refl, sym, ap, subst, ◌∙◌, false, List, [], ◌∷◌, Option, none, some, String, ok,
  err, lookup, lookup-insert, string_eq, ◌==◌, eq-of_==, >>=-elim, Bool-cases, inl, inr,
  if◌then◌else◌, arith,
}
use codestra_middleware.Raised.{Outcome}
use codestra_middleware.AiJobs.{Job, Approval, Queue, is_some, audit}
use codestra_middleware.AiJobs.Profiles.{effective_compatible_profiles}
use codestra_middleware.AiJobs.Admission.{Claim, check_filter, admit, take, claim_among, claim}
use codestra_middleware.AiJobs.Moves.{
  Moves, claims, renews, grows, finishes, proposes, stops, lapses_cancelled, lapses_retried,
  lapses_dead, passes_deadline, asks, decides, revives, Change,
}
use codestra_middleware.AiJobs.Runs.{
  Op, op_claim, is_claim, Hashes, IsFresh, AllFresh, apply, run, after,
}
use codestra_middleware.AiJobs.Histories.{Everywhere, Change-Later, apply-Changes}
use codestra_middleware.AiJobs.Attempts.{IsBounded, run-IsBounded}
use codestra_middleware.AiJobs.Selection.{claim-Found}

-- The job that a claim has given out.
abbrev pub given : Outcome (Option (String × Job) × Queue) → Option String
given (err e) = none
given (ok (none, q)) = none
given (ok (some (id, job), q)) = some id

abbrev pub claims_by : String → Op → Queue → ℕ
claims_by id (op_claim now c) q = if is_some id (given (claim now c q)) then 1 else 0
claims_by id _ q = 0

-- How many claims of a run have given out the job.
unfoldable pub count_claims : Hashes → String → List Op → Queue → ℕ
count_claims h id [] q = 0
count_claims h id (op ∷ ops) q = claims_by id op q + count_claims h id ops (apply h op q)

abbrev HasToken : ℕ → Job → Option Approval → Type 0
HasToken token j a = j.fencing_token ≡ token

-- No other move touches the token.
Moves-HasToken :
    (token : ℕ) (k l : Job) (x y : Option Approval)
    → HasToken token k x
    → Moves false k x l y
    → HasToken token l y
Moves-HasToken token k l x y p (claims now c may waits) = absurd (cc)
Moves-HasToken token k l x y p (renews now s held live) = p
Moves-HasToken token k l x y p (grows now s held live) = p
Moves-HasToken token k l x y p (finishes now r held live ends) = p
Moves-HasToken token k l x y p (proposes now r c waits held live works ends) = p
Moves-HasToken token k l x y p (stops now held live) = p
Moves-HasToken token k l x y p (lapses_cancelled now org ws) = ground arith
Moves-HasToken token k l x y p (lapses_retried now org ws) = ground arith
Moves-HasToken token k l x y p (lapses_dead now org ws) = ground arith
Moves-HasToken token k l x y p (passes_deadline now org ws) = ground arith
Moves-HasToken token k l x y p (asks now open_state) = p
Moves-HasToken token k l x y p (decides now granted c found waits) = p
Moves-HasToken token k l x y p (revives now dead few c found granted) = p

take-none :
    (now : ℕ) (c : Claim) (q q' : Queue) (found : Option (String × Job))
    → take now c q found ≡ (none, q')
    → q'.jobs ≡ q.jobs
unfolding take audit
take-none now c q q' none e = sym (ap (λ x. x.1.jobs) e)
take-none now c q q' (some (id, j)) e = absurd (cc (ap (λ x. x.0) e))

claim_among-none :
    (now : ℕ) (c : Claim) (profiles : List String) (q q' : Queue)
    → claim_among now c profiles q ≡ (none, q')
    → q'.jobs ≡ q.jobs
unfolding claim_among audit
claim_among-none now c [] q q' e = sym (ap (λ x. x.1.jobs) e)
claim_among-none now c (p ∷ ps) q q' e = take-none now c q q' _ e

ok-injective {ℓ} : {A : Type ℓ} {x y : A} → ◌≡◌ {A = Outcome A} (ok x) (ok y) → x ≡ y
ok-injective e = cc

claim-none : (now : ℕ) (c : Claim) (q q' : Queue) → claim now c q ≡ ok (none, q') → q'.jobs ≡ q.jobs
unfolding claim
claim-none now c q q' e = >>=-elim (check_filter c.allowed_model_profiles) _ e λ u checked e₁.
    >>=-elim (admit now c c.service_id q) _ e₁ λ active admitted e₂.
      claim_among-none now c (effective_compatible_profiles active c.allowed_model_profiles) q q'
        (ok-injective e₂)

-- A job that keeps its row, or is claimed.
abbrev Counted : String → Job → ℕ → Queue → Type 0
Counted id j n q = (k : Job) × (lookup id q.jobs ≡ some k) × (k.fencing_token ≡ j.fencing_token + n)

claimed-Counted :
    (now : ℕ) (c : Claim) (q q' : Queue) (id given_id : String) (j row : Job)
    → lookup id q.jobs ≡ some j
    → claim now c q ≡ ok (some (given_id, row), q')
    → Counted id j (if given_id == id then 1 else 0) q'
claimed-Counted now c q q' id given_id j row found e =
    let (active, admitted, t) = claim-Found now c q q' given_id row e in
    elim (Bool-cases (given_id == id)) [
      | inl same ↦
          let is_id = eq-of_== given_id id same in
          let is_old : t.old ≡ j = cc (t.found, found, is_id) in
          rw same (
            row,
            ap (lookup id) t.stored ∙ rw (lookup-insert, same) refl,
            ap (λ x. x.fencing_token) t.new ∙ ap (λ x. x.fencing_token + 1) is_old,
          )
      | inr other ↦
          rw other (j, ap (lookup id) t.stored ∙ rw (lookup-insert, other) found, omega arith)
    ]

claim-Counted :
    (now : ℕ) (c : Claim) (q : Queue) (id : String) (j : Job)
    (r : Outcome (Option (String × Job) × Queue))
    → lookup id q.jobs ≡ some j
    → claim now c q ≡ r
    → Counted id j (if is_some id (given r) then 1 else 0) (after r q)
claim-Counted now c q id j (err x) found e = (j, found, omega arith)
claim-Counted now c q id j (ok (none, q')) found e =
    (j, ap (lookup id) (claim-none now c q q' e) ∙ found, omega arith)
claim-Counted now c q id j (ok (some (given_id, row), q')) found e =
    claimed-Counted now c q q' id given_id j row found e

other-Counted :
    (h : Hashes) (op : Op) (q : Queue) (id : String) (j : Job)
    → IsFresh op q
    → lookup id q.jobs ≡ some j
    → is_claim op ≡ false
    → Counted id j 0 (apply h op q)
other-Counted h op q id j fresh found e =
    let l =
      Change-Later (HasToken j.fencing_token) {b = false}
        (λ k l x y p m. Moves-HasToken j.fencing_token k l x y p m) id j q (apply h op q)
        (lookup id q.jobs) (lookup id (apply h op q).jobs) (lookup id q.approvals)
        (lookup id (apply h op q).approvals) refl refl found refl
        (subst
          (λ b.
            Change b (lookup id q.jobs) (lookup id q.approvals) (lookup id (apply h op q).jobs)
              (lookup id (apply h op q).approvals))
          e (apply-Changes h op q fresh id)) in
    (l.new, l.kept, l.holds ∙ omega arith)

apply-Counted :
    (h : Hashes) (op : Op) (q : Queue) (id : String) (j : Job)
    → IsFresh op q
    → lookup id q.jobs ≡ some j
    → Counted id j (claims_by id op q) (apply h op q)
unfolding apply
apply-Counted h (op_claim now c) q id j fresh found =
    claim-Counted now c q id j (claim now c q) found refl
apply-Counted h op q id j fresh found = other-Counted h op q id j fresh found refl

run-Counted :
    (h : Hashes) (ops : List Op) (q : Queue) (id : String) (j : Job)
    → AllFresh h ops q
    → lookup id q.jobs ≡ some j
    → Counted id j (count_claims h id ops q) (run h ops q)
unfolding count_claims run
run-Counted h [] q id j fresh found = (j, found, omega arith)
run-Counted h (op ∷ ops) q id j fresh found =
    let (k, kept, grown) = apply-Counted h op q id j fresh.0 found in
    let (l, kept', grown') = run-Counted h ops (apply h op q) id k fresh.1 kept in
    (l, kept', omega (arith, grown, grown'))

-- No job is tried for ever: whatever is called, and in whatever order, a job that has been claimed n
-- times before is claimed at most 10 - n times more.
pub claims_end :
    (h : Hashes) (ops : List Op) (q : Queue) (id : String) (j : Job)
    → AllFresh h ops q
    → Everywhere IsBounded q
    → lookup id q.jobs ≡ some j
    → j.attempt_count + count_claims h id ops q ≤ 10
claims_end h ops q id j fresh bounded found =
    let (k, kept, grown) = run-Counted h ops q id j fresh found in
    let before = bounded id j found in
    let later = run-IsBounded h ops q fresh bounded id k kept in
    omega (arith, grown, before.counted, later.counted, later.within, later.capped)
