-- ===== src/TtsJobs.antt =====
-- app/core/tts_jobs.py: speech jobs with leases and fencing tokens, over the table of the migration
-- 0033. An operation is one statement and its commit; `now()` is an argument. A row keeps the columns
-- that an operation reads or changes.
pub mod Calls
pub mod Moves
pub mod Runs
pub mod Once
pub mod Audio
pub mod Settled
mod Tests
use codestra_middleware.Base.{
  ℕ, ◌+◌, ◌≡◌, Bool, true, false, ◌&&◌, List, [], ◌∷◌, Option, none, some, String, Dict, ltb, leb,
  nat_beq, ◌==◌, string_eq, lookup, insert, if◌then◌else◌,
}

pub data TtsState : Type 0 where
  queued claimed provider_starting streaming completed failed cancelled ambiguous_provider_outcome :
      TtsState

-- A row of `tts_generation_jobs`, under its `id`.
pub record TtsJob : Type 0 where
  pub organization_id : String
  pub workspace_id : String
  pub requested_by : String
  pub project_key : String
  pub idempotency_key : String
  pub request_sha256 : String
  pub state : TtsState
  pub attempt_count : ℕ
  pub fencing_token : ℕ
  pub lease_owner : Option String
  pub lease_expires_at : Option ℕ
  pub provider_request_started_at : Option ℕ
  pub first_chunk_at : Option ℕ
  pub chunk_count : ℕ
  pub audio_bytes : ℕ
  pub completed_at : Option ℕ
  pub cancellation_at : Option ℕ
  pub failure_class : Option String
  pub created_at : ℕ
  pub updated_at : ℕ

abbrev pub Table : Type 0
Table = Dict String TtsJob

abbrev pub is_null : {A : Type 0} → Option A → Bool
is_null none = true
is_null (some _) = false

-- `COALESCE(x, y)`
abbrev pub coalesce : Option ℕ → ℕ → Option ℕ
coalesce none y = some y
coalesce (some x) y = some x

-- `x > now()`, which is not true of NULL.
unfoldable pub is_after : Option ℕ → ℕ → Bool
is_after none now = false
is_after (some t) now = ltb now t

unfoldable pub is_over : Option ℕ → ℕ → Bool
is_over none now = false
is_over (some t) now = leb t now

abbrev pub owned_by : String → Option String → Bool
owned_by worker none = false
owned_by worker (some w) = w == worker

-- `UPDATE ... WHERE id=:job AND <test> RETURNING id`, and whether a row came back.
unfoldable pub update_found :
    String → (TtsJob → Bool) → (TtsJob → TtsJob) → Table → Option TtsJob → Bool × Table
update_found id test change t none = (false, t)
update_found id test change t (some job) =
    if test job then (true, insert id (change job) t) else (false, t)

unfoldable pub update_row : String → (TtsJob → Bool) → (TtsJob → TtsJob) → Table → Bool × Table
unfolding update_found
update_row id test change t = update_found id test change t (lookup id t)
