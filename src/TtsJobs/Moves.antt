-- ===== src/TtsJobs/Moves.antt =====
-- The ways in which the operations of app/core/tts_jobs.py change one row.
use mathlib.Core.Option
use codestra_middleware.Base.{
  ℕ, ◌≡◌, refl, sym, subst, Bool, true, Option, none, some, String, string_eq, ◌==◌, lookup, insert,
  update_all, lookup-insert, lookup-update_all, eq-of_==, Bool-cases, inl, inr,
}
use codestra_middleware.TtsJobs.{TtsJob, Table, update_found, update_row}
use codestra_middleware.TtsJobs.Calls.{
  Request, fresh_job, is_claimable, taken, can_start, started, can_stream, streamed, can_complete,
  ended, can_give_up, given_up, cut_off, can_cancel, withdrawn, is_safe, is_ambiguous, released,
  requeued, lost, lapsed,
}

pub data Moves (j : TtsJob) : TtsJob → Type 0 where
  stays : Moves j j
  takes :
      (now : ℕ) (worker_id : String) (lease_seconds : ℕ)
      → is_claimable j ≡ true
      → Moves j (taken now worker_id lease_seconds j)
  starts :
      (now : ℕ) (worker_id : String) (token : ℕ)
      → can_start now worker_id token j ≡ true
      → Moves j (started now worker_id token j)
  streams :
      (now : ℕ) (worker_id : String) (token size : ℕ)
      → can_stream now worker_id token j ≡ true
      → Moves j (streamed now worker_id token size j)
  completes :
      (now : ℕ) (worker_id : String) (token : ℕ)
      → can_complete now worker_id token j ≡ true
      → Moves j (ended now worker_id token j)
  gives_up :
      (now : ℕ) (worker_id : String) (token : ℕ) (failure : String)
      → can_give_up now worker_id token j ≡ true
      → Moves j (given_up now worker_id token failure j)
  cuts_off :
      (now : ℕ) (worker_id : String) (token : ℕ)
      → can_give_up now worker_id token j ≡ true
      → Moves j (cut_off now worker_id token j)
  withdraws :
      (now : ℕ) (org ws user : String) → can_cancel org ws user j ≡ true → Moves j (withdrawn now j)
  requeues : (now : ℕ) → is_safe now j ≡ true → Moves j (released now j)
  lapses : (now : ℕ) → is_ambiguous now j ≡ true → Moves j (lost now j)

-- What an operation does at one identifier.
pub data Change : Option TtsJob → Option TtsJob → Type 0 where
  absent : Change none none
  appears : (now : ℕ) (r : Request) → Change none (some (fresh_job now r))
  becomes : {j k : TtsJob} → Moves j k → Change (some j) (some k)

abbrev pub Changes : Table → Table → Type 0
Changes t t' = (id : String) → Change (lookup id t) (lookup id t')

pub unchanged : (o : Option TtsJob) → Change o o
unchanged none = absent
unchanged (some j) = becomes stays

pub set-Change :
    (job_id : String) (k : TtsJob) (t : Table)
    → Change (lookup job_id t) (some k)
    → Changes t (insert job_id k t)
set-Change job_id k t c id = elim (Bool-cases (job_id == id)) [
  | inl same ↦
      rw (lookup-insert, same)
        (subst (λ x. Change (lookup x t) (some k)) (eq-of_== job_id id same) c)
  | inr other ↦ rw (lookup-insert, other) (unchanged (lookup id t))
]

found-Changes :
    (job_id : String) (test : TtsJob → Bool) (change : TtsJob → TtsJob) (t : Table)
    (o : Option TtsJob)
    → ((j : TtsJob) → test j ≡ true → Moves j (change j))
    → lookup job_id t ≡ o
    → Changes t (update_found job_id test change t o).1
unfolding update_found
found-Changes job_id test change t none m e = λ id. unchanged (lookup id t)
found-Changes job_id test change t (some j) m e = elim (Bool-cases (test j)) [
  | inl passes ↦ rw passes (
      set-Change job_id (change j) t
        (subst (λ o. Change o (some (change j))) (sym e) (becomes (m j passes))))
  | inr fails ↦ rw fails (λ id. unchanged (lookup id t))
]

pub update_row-Changes :
    (job_id : String) (test : TtsJob → Bool) (change : TtsJob → TtsJob) (t : Table)
    → ((j : TtsJob) → test j ≡ true → Moves j (change j))
    → Changes t (update_row job_id test change t).1
unfolding update_row
update_row-Changes job_id test change t m =
    found-Changes job_id test change t (lookup job_id t) m refl

-- A row is requeued or given up by a recovery, not both: a requeued row is with no provider.
swept : (now : ℕ) (j : TtsJob) → Moves j (lapsed now (requeued now j))
unfolding is_ambiguous
swept now j = elim (Bool-cases (is_safe now j)) [
  | inl safe ↦ rw safe (requeues now safe)
  | inr unsafe ↦ rw unsafe (elim (Bool-cases (is_ambiguous now j)) [
    | inl over ↦ rw over (lapses now over)
    | inr live ↦ rw live stays
  ])
]

swept-Change :
    (now : ℕ) (o : Option TtsJob) → Change o (Option.map (lapsed now) (Option.map (requeued now) o))
swept-Change now none = absent
swept-Change now (some j) = becomes (swept now j)

pub sweep-Changes :
    (now : ℕ) (t : Table) → Changes t (update_all (lapsed now) (update_all (requeued now) t))
sweep-Changes now t id =
    rw
      (
        lookup-update_all (lapsed now) id (update_all (requeued now) t),
        lookup-update_all (requeued now) id t,
      )
      (swept-Change now (lookup id t))
