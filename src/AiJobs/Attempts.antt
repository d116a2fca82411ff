-- ===== src/AiJobs/Attempts.antt =====
-- The attempts of AI jobs (app/core/ai_jobs.py): how often a job is claimed, over any calls.
use codestra_middleware.Base.{
  ℕ, ◌≤◌, ◌<◌, ◌≡◌, refl, sym, ◌⊎◌, inl, inr, subst, Bool, true, List, Option, String, string_eq,
  arith,
}
use codestra_middleware.AiJobs.{Job, Approval, Queue, completed, approval_required}
use codestra_middleware.AiJobs.Admission.{is_waiting}
use codestra_middleware.AiJobs.Endings.{Report, final_state}
use codestra_middleware.AiJobs.Recovery.{loses_retried}
use codestra_middleware.AiJobs.Moves.{
  Moves, claims, renews, grows, finishes, proposes, stops, lapses_cancelled, lapses_retried,
  lapses_dead, passes_deadline, asks, decides, revives, IsNew,
}
use codestra_middleware.AiJobs.Runs.{Op, Hashes, run, AllFresh}
use codestra_middleware.AiJobs.Histories.{Everywhere, run-Everywhere}

pub record IsBounded (j : Job) (a : Option Approval) : Type 0 where
  pub counted : j.fencing_token ≡ j.attempt_count
  pub within : j.attempt_count ≤ j.max_attempts
  pub capped : j.max_attempts ≤ 10
  pub left : is_waiting j.state ≡ true → j.attempt_count < j.max_attempts

IsNew-IsBounded : (k : Job) (a : Option Approval) → IsNew k → IsBounded k a
IsNew-IsBounded k a n =
    subst (λ x. IsBounded x a) (sym n.is_fresh)
      (record {
        counted = refl;
        within = omega (arith, n.positive);
        capped = omega (arith, n.few);
        left = λ w. n.positive;
      })

-- A job that its worker has ended waits only while attempts are left.
final_state-left :
    (r : Report) (j : Job)
    → (r.completion_state ≡ completed) ⊎ (r.completion_state ≡ approval_required)
    → is_waiting (final_state r j) ≡ true
    → j.attempt_count < j.max_attempts
unfolding final_state is_waiting
final_state-left r j (inl e) w = ground arith
final_state-left r j (inr e) w = ground arith

loses_retried-left :
    (now : ℕ) (org ws : Option String) (j : Job)
    → loses_retried now org ws j ≡ true
    → j.attempt_count < j.max_attempts
unfolding loses_retried
loses_retried-left now org ws j e = ground arith

Moves-IsBounded :
    (b : Bool) (k l : Job) (x y : Option Approval) → IsBounded k x → Moves b k x l y → IsBounded l y
unfolding is_waiting
Moves-IsBounded b k l x y p (claims now c may waits) = ground arith
Moves-IsBounded b k l x y p (renews now s held live) = ground arith
Moves-IsBounded b k l x y p (grows now s held live) = ground arith
Moves-IsBounded b k l x y p (finishes now r held live ends) = record {
  counted = p.counted;
  within = p.within;
  capped = p.capped;
  left = λ w. final_state-left r k (inl ends) w;
}
Moves-IsBounded b k l x y p (proposes now r c waits held live works ends) = record {
  counted = p.counted;
  within = p.within;
  capped = p.capped;
  left = λ w. final_state-left r k (inr ends) w;
}
Moves-IsBounded b k l x y p (stops now held live) = ground arith
Moves-IsBounded b k l x y p (lapses_cancelled now org ws) = ground arith
Moves-IsBounded b k l x y p (lapses_retried now org ws) =
    ground (arith, loses_retried-left now org ws k)
Moves-IsBounded b k l x y p (lapses_dead now org ws) = ground arith
Moves-IsBounded b k l x y p (passes_deadline now org ws) = ground arith
Moves-IsBounded b k l x y p (asks now open_state) = ground arith
Moves-IsBounded b k l x y p (decides now granted c found waits) = ground arith
Moves-IsBounded b k l x y p (revives now dead few c found granted) = ground arith

-- Whatever is called, and in whatever order: the fencing token of a job counts its attempts, a job is
-- attempted at most `max_attempts` times, which is at most ten, and a job that waits to be claimed has
-- attempts left. Every job has a fresh identifier, and the queue has the property at first.
pub run-IsBounded :
    (h : Hashes) (ops : List Op) (q : Queue)
    → AllFresh h ops q
    → Everywhere IsBounded q
    → Everywhere IsBounded (run h ops q)
run-IsBounded h ops q fresh p =
    run-Everywhere h IsBounded IsNew-IsBounded Moves-IsBounded ops q fresh p
