-- ===== src/AiJobs/Arrivals.antt =====
-- What claims and new requests do to the jobs (app/core/ai_jobs.py and app/core/ai_orchestration.py).
use codestra_middleware.Base.{
  ℕ, ◌+◌, ◌<◌, ◌≡◌, refl, sym, ap, subst, Bool, true, false, not, ◌&&◌, List, [], ◌∷◌, Option, none,
  some, String, ok, err, ◌>>=◌, Dict, nat_beq, string_eq, lookup, keys, >>=-elim, raise_if-elim,
  Bool-cases, inl, inr, arith,
}
use codestra_middleware.Raised.{Outcome}
use codestra_middleware.AiJobs.{Job, Queue, is_absent, audit}
use codestra_middleware.AiJobs.Profiles.{
  resolve_browser_model_profile, effective_compatible_profiles,
}
use codestra_middleware.AiJobs.Contracts.{
  AiCommand, BrowserRequest, CommandType, capabilities, browser_command, fields_fit,
  policy_consistency, validated, build_with, build_browser_worker_contract,
}
use codestra_middleware.AiJobs.Creation.{
  Created, Quota, Settings, replayed, is_own, add_message_job, reuse_or_add, create_message_job,
  check_quota, submit_as, submit,
}
use codestra_middleware.AiJobs.Admission.{
  Claim, is_waiting, is_claimable, profile_filter, better, comes_before, candidate, check_filter,
  admit, take, claim_among, claim,
}
use codestra_middleware.AiJobs.Moves.{claims, stays, moves, set-Change, add-Change}
use codestra_middleware.AiJobs.Effects.{Changes, same}

abbrev queue_of {ℓ} : {A : Type ℓ} → Queue → Outcome (A × Queue) → Queue
queue_of q (ok y) = y.1
queue_of q (err e) = q

-- A candidate is a row that passes the test.
abbrev pub Passes : (Job → Bool) → Dict String Job → Option (String × Job) → Type 0
Passes test jobs none = Unit
Passes test jobs (some (id, job)) = (lookup id jobs ≡ some job) × (test job ≡ true)

better-Passes :
    (test : Job → Bool) (jobs : Dict String Job) (id : String) (o : Option Job)
    (rest : Option (String × Job))
    → lookup id jobs ≡ o
    → Passes test jobs rest
    → Passes test jobs (better test id o rest)
unfolding better
better-Passes test jobs id none rest e p = p
better-Passes test jobs id (some job) none e p = elim (Bool-cases (test job)) [
  | inl passes ↦ rw passes (e, passes)
  | inr fails ↦ rw fails tt
]
better-Passes test jobs id (some job) (some (other, best)) e p =
    elim (Bool-cases (test job && not (comes_before best job))) [
      | inl first ↦ rw first (e, ground arith)
      | inr later ↦ rw later p
    ]

pub candidate-Passes :
    (test : Job → Bool) (jobs : Dict String Job) (ids : List String)
    → Passes test jobs (candidate test jobs ids)
unfolding candidate
candidate-Passes test jobs [] = tt
candidate-Passes test jobs (id ∷ ids) =
    better-Passes test jobs id (lookup id jobs) (candidate test jobs ids) refl
      (candidate-Passes test jobs ids)

is_claimable-waiting :
    (now : ℕ) (c : Claim) (profiles : Option (List String)) (j : Job)
    → is_claimable now c profiles j ≡ true
    → is_waiting j.state ≡ true
unfolding is_claimable
is_claimable-waiting now c profiles j e = ground arith

take-Changes :
    (now : ℕ) (c : Claim) (test : Job → Bool) (q : Queue) (found : Option (String × Job))
    → Passes test q.jobs found
    → ((j : Job) → test j ≡ true → is_waiting j.state ≡ true)
    → Changes true q (take now c q found).1
unfolding take audit
take-Changes now c test q none p waits = same true q
take-Changes now c test q (some (id, j)) (found, passes) waits =
    set-Change id j _ q.jobs q.approvals found (moves stays (claims now c refl (waits j passes)))

claim_among-Changes :
    (now : ℕ) (c : Claim) (profiles : List String) (q : Queue)
    → Changes true q (claim_among now c profiles q).1
unfolding claim_among audit
claim_among-Changes now c [] q = same true q
claim_among-Changes now c (p ∷ ps) q =
    take-Changes now c (is_claimable now c (profile_filter c (p ∷ ps))) q _
      (candidate-Passes _ q.jobs (keys q.jobs))
      (is_claimable-waiting now c (profile_filter c (p ∷ ps)))

pub claim-Changes :
    (now : ℕ) (c : Claim) (q q' : Queue) (x : Option (String × Job))
    → claim now c q ≡ ok (x, q')
    → Changes true q q'
unfolding claim
claim-Changes now c q q' x e = >>=-elim (check_filter c.allowed_model_profiles) _ e λ u checked e₁.
    >>=-elim (admit now c c.service_id q) _ e₁ λ active admitted e₂.
      subst (Changes true q) (ap (queue_of q) e₂) (
        claim_among-Changes now c (effective_compatible_profiles active c.allowed_model_profiles) q)

validated-id :
    (encoded : AiCommand → ℕ) (c d : AiCommand)
    → validated encoded c ≡ ok d
    → (d ≡ c) × (fields_fit c ≡ true)
unfolding validated policy_consistency
validated-id encoded c d e = ground arith

-- Validation allows five retries at most.
fields_fit-few : (c : AiCommand) → fields_fit c ≡ true → c.resource_limits.retry_count < 6
unfolding fields_fit
fields_fit-few c e = ground arith

absent-none : {A : Type 0} (o : Option A) → not (is_absent o) ≡ false → o ≡ none
absent-none none e = refl
absent-none (some a) e = absurd (cc)

build_with-few :
    (encoded : AiCommand → ℕ) (now : ℕ) (job_id : String) (r : BrowserRequest) (profile : String)
    (capability : Option (CommandType × ℕ)) (c : AiCommand)
    → build_with encoded now job_id r profile capability ≡ ok c
    → (0 < r.max_attempts) × (r.max_attempts < 7)
unfolding build_with
build_with-few encoded now job_id r profile none c e = absurd (cc)
build_with-few encoded now job_id r profile (some k) c e =
    raise_if-elim (nat_beq r.max_attempts 0) _ _ e λ positive e₁.
      let (built, fits) = validated-id encoded (browser_command now job_id r profile k) c e₁ in
      let few = fields_fit-few (browser_command now job_id r profile k) fits in ground (arith, few)

build-few :
    (encoded : AiCommand → ℕ) (now : ℕ) (job_id : String) (r : BrowserRequest) (c : AiCommand)
    → build_browser_worker_contract encoded now job_id r ≡ ok c
    → (0 < r.max_attempts) × (r.max_attempts < 7)
unfolding build_browser_worker_contract
build-few encoded now job_id r c e =
    >>=-elim (resolve_browser_model_profile r.task_type) _ e λ profile resolved e₁.
      build_with-few encoded now job_id r profile (lookup r.task_type capabilities) c e₁

add_message_job-Changes :
    (b : Bool) (request_sha256 : BrowserRequest → String) (sha256 : String → String)
    (encoded : AiCommand → ℕ) (now : ℕ) (job_id message_id hash : String) (r : BrowserRequest)
    (c : AiCommand) (q : Queue)
    → lookup job_id q.jobs ≡ none
    → (0 < r.max_attempts) × (r.max_attempts < 7)
    → Changes b q (add_message_job encoded request_sha256 sha256 now job_id message_id hash r c q)
unfolding add_message_job
add_message_job-Changes b request_sha256 sha256 encoded now job_id message_id hash r c q unused
      few =
    add-Change job_id _ q.jobs q.approvals unused (record {
      now = now;
      workspace_id = r.workspace_id;
      message_id = some message_id;
      hash = hash;
      max_attempts = r.max_attempts;
      command = c;
      is_fresh = refl;
      positive = few.0;
      few = few.1;
    })

reuse_or_add-Changes :
    (b : Bool) (encoded : AiCommand → ℕ) (request_sha256 : BrowserRequest → String)
    (sha256 : String → String) (now : ℕ) (job_id message_id : String) (r : BrowserRequest)
    (q q' : Queue) (known : Option (String × Job)) (x : Created)
    → lookup job_id q.jobs ≡ none
    → reuse_or_add encoded request_sha256 sha256 now job_id message_id r q known ≡ ok (x, q')
    → Changes b q q'
unfolding reuse_or_add
reuse_or_add-Changes b encoded request_sha256 sha256 now job_id message_id r q q' (some k) x unused
      e =
    >>=-elim (replayed (request_sha256 r) k) _ e
      λ answer again e₁. subst (Changes b q) (ap (queue_of q) e₁) (same b q)
reuse_or_add-Changes b encoded request_sha256 sha256 now job_id message_id r q q' none x unused e =
    raise_if-elim (not (is_own r (lookup r.conversation_id q.conversations))) _ _ e λ own e₁.
      >>=-elim (build_browser_worker_contract encoded now job_id r) _ e₁ λ c built e₂.
        subst (Changes b q) (ap (queue_of q) e₂) (
          add_message_job-Changes b request_sha256 sha256 encoded now job_id message_id
            (request_sha256 r) r c q unused (build-few encoded now job_id r c built))

pub create_message_job-Changes :
    (b : Bool) (encoded : AiCommand → ℕ) (request_sha256 : BrowserRequest → String)
    (sha256 : String → String) (now : ℕ) (job_id message_id : String) (r : BrowserRequest)
    (q q' : Queue) (x : Created)
    → lookup job_id q.jobs ≡ none
    → create_message_job encoded request_sha256 sha256 now job_id message_id r q ≡ ok (x, q')
    → Changes b q q'
unfolding create_message_job
create_message_job-Changes b encoded request_sha256 sha256 now job_id message_id r q q' x unused e =
    >>=-elim (resolve_browser_model_profile r.task_type) _ e λ profile resolved e₁.
      reuse_or_add-Changes b encoded request_sha256 sha256 now job_id message_id r q q' _ x unused
        e₁

submit_as-Changes :
    (b : Bool) (payload_size : AiCommand → ℕ) (payload_sha256 : AiCommand → String)
    (settings : Settings) (quota : Option Quota) (used_tokens now : ℕ) (ws : String) (c : AiCommand)
    (q q' : Queue) (known : Option (String × Job)) (x : Created)
    → fields_fit c ≡ true
    → submit_as payload_size payload_sha256 settings quota used_tokens now ws c q known ≡ ok (x, q')
    → Changes b q q'
unfolding submit_as
submit_as-Changes b payload_size payload_sha256 settings quota used_tokens now ws c q q' (some k) x
      fits e =
    >>=-elim (replayed (payload_sha256 c) k) _ e
      λ answer again e₁. subst (Changes b q) (ap (queue_of q) e₁) (same b q)
submit_as-Changes b payload_size payload_sha256 settings quota used_tokens now ws c q q' none x fits
      e =
    raise_if-elim (not (is_absent (lookup c.command_id q.jobs))) _ _ e λ free e₁.
      >>=-elim (check_quota payload_size payload_sha256 settings quota used_tokens c ws q) _ e₁
        λ u allowed e₂. subst (Changes b q) (ap (queue_of q) e₂) (
          add-Change c.command_id _ q.jobs q.approvals (absent-none _ free) (record {
            now = now;
            workspace_id = ws;
            message_id = none;
            hash = payload_sha256 c;
            max_attempts = c.resource_limits.retry_count + 1;
            command = c;
            is_fresh = refl;
            positive = omega arith;
            few = omega (arith, fields_fit-few c fits);
          }))

pub submit-Changes :
    (b : Bool) (encoded payload_size : AiCommand → ℕ) (payload_sha256 : AiCommand → String)
    (settings : Settings) (quota : Option Quota) (used_tokens now : ℕ) (ws : String) (c : AiCommand)
    (q q' : Queue) (x : Created)
    → (validated encoded c >>= λ d.
        submit payload_size payload_sha256 settings quota used_tokens now d ws q)
      ≡ ok (x, q')
    → Changes b q q'
unfolding submit
submit-Changes b encoded payload_size payload_sha256 settings quota used_tokens now ws c q q' x e =
    >>=-elim (validated encoded c) _ e λ d valid e₁.
      let (is_c, fits) = validated-id encoded c d valid in
      submit_as-Changes b payload_size payload_sha256 settings quota used_tokens now ws d q q' _ x
        (subst (λ y. fields_fit y ≡ true) (sym is_c) fits) e₁
