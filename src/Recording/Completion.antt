-- ===== src/Recording/Completion.antt =====
-- RecordingService.complete of app/recording/service.py up to the call of Odoo. The duration of a
-- recording is a float, of which a completion only says whether it agrees.
use mathlib.Core.Option
use codestra_middleware.Base.{
  ℕ, ◌+◌, Bool, true, false, not, ◌&&◌, ◌||◌, List, [], ◌∷◌, Option, none, some, String, ok, err,
  or_raise, lookup, insert, nat_beq, ◌==◌, string_eq, nat_eq, pair_eq, if◌then◌else◌,
}
use codestra_middleware.Clock.{days}
use codestra_middleware.Raised.{Outcome, key_error}
use codestra_middleware.Recording.{
  RecordingState, uploading, uploaded, server_verified, quarantined, failed, Recording,
  retention_days, is_linked, is_missing,
}
use codestra_middleware.Recording.Service.{ObjectHead, Ack, Service, conflict, transition, get}

-- The payload; a key that is not there is `none`.
pub record Completion : Type 0 where
  pub recording_uid : Option String
  pub idempotency_key : Option String
  pub environment : Option String
  pub campaign_key : Option String
  pub sha256 : Option String
  pub file_size_bytes : Option ℕ
  pub format : Option String
  pub same_duration : Bool

abbrev pub agrees : Option String → String → Bool
agrees none x = false
agrees (some y) x = y == x

abbrev pub agrees_with : Option ℕ → ℕ → Bool
agrees_with none n = false
agrees_with (some m) n = nat_beq m n

-- The names that stand by a test that fails.
unfoldable pub failing : List (String × Bool) → List String
failing [] = []
failing ((name, true) ∷ tests) = failing tests
failing ((name, false) ∷ tests) = name ∷ failing tests

-- In the order of `sorted`.
unfoldable pub mismatched_completion : String → Completion → Recording → List String
unfolding failing
mismatched_completion uid c r = failing (
    ("campaign_key", agrees c.campaign_key r.campaign_key)
    ∷ ("duration_seconds", c.same_duration)
    ∷ ("environment", agrees c.environment r.environment)
    ∷ ("file_size_bytes", agrees_with c.file_size_bytes r.file_size_bytes)
    ∷ ("format", agrees c.format r.format)
    ∷ ("idempotency_key", agrees c.idempotency_key r.idempotency_key)
    ∷ ("recording_uid", agrees c.recording_uid uid)
    ∷ ("sha256", agrees c.sha256 r.sha256)
    ∷ [])

unfoldable pub mismatches : String → ObjectHead → Recording → List String
unfolding failing
mismatches uid head r = failing (
    ("campaign_key", agrees (lookup "campaign_key" head.metadata) r.campaign_key)
    ∷ ("content_type", head.content_type == r.content_type)
    ∷ ("environment", agrees (lookup "environment" head.metadata) r.environment)
    ∷ ("file_size_bytes", nat_beq head.size_bytes r.file_size_bytes)
    ∷ ("idempotency_key", agrees (lookup "idempotency_key" head.metadata) r.idempotency_key)
    ∷ ("recording_uid", agrees (lookup "recording_uid" head.metadata) uid)
    ∷ ("sha256", head.checksum_sha256 == r.sha256)
    ∷ [])

abbrev pub ack : Recording → Bool → Ack
ack r duplicate = record {
  recording_uid = r.recording_uid;
  state = r.state;
  checksum_verified = not (is_missing r.verified_at);
  is_odoo_linked = not (is_missing r.odoo_linked_at);
  duplicate = duplicate;
}

-- A completion that waits for Odoo: what it keeps of the metadata that it sent.
pub record Pending : Type 0 where
  pub recording_uid : String
  pub retention_until : Option ℕ

-- Where a completion stands when it has started.
pub data Begun : Type 0 where
  answered : Ack → Begun
  awaiting : Pending → Begun

abbrev pub is_null {ℓ} : {A : Type ℓ} → List A → Bool
is_null [] = true
is_null (x ∷ xs) = false

-- `RETENTION_DAYS[...]` raises for a class that it does not know.
unfoldable pub retention_until : ℕ → Recording → Outcome (Option ℕ)
retention_until now r =
    if r.legal_hold || (r.retention_class == "legal_hold")
    then ok none
    else or_raise (Option.map (λ n. some (now + days n)) (lookup r.retention_class retention_days))
        (key_error r.retention_class)

abbrev pub with_pending : String → Outcome (Option ℕ) → Outcome Begun
with_pending uid (ok until) =
    ok (awaiting (record { recording_uid = uid; retention_until = until }))
with_pending uid (err e) = err e

-- The object agrees with the recording: it is verified, and Odoo is called.
unfoldable pub verify : ℕ → String → String → Recording → Service → Outcome Begun × Service
unfolding retention_until transition
verify now uid version r s =
    let v = record r { object_version_id = some version; verified_at = some now } in
    (
      with_pending uid (retention_until now v),
      transition uid v server_verified "object_verified" []
          (record s { object_versions = insert version uid s.object_versions }),
    )

abbrev pub is_owned_by_other : String → Option String → Bool
is_owned_by_other uid none = false
is_owned_by_other uid (some owner) = not (owner == uid)

-- The recording is uploaded, and the storage has answered with its object or raised a KeyError or an
-- OSError; any other exception leaves the recording uploaded, and is not modelled.
unfoldable pub check_object :
    ℕ → String → Option ObjectHead → Recording → Service → Outcome Begun × Service
unfolding verify mismatches
check_object now uid none r s =
    (conflict "object unavailable", transition uid r failed "object_head_failed" [] s)
check_object now uid (some head) r s =
    if is_owned_by_other uid (lookup head.version_id s.object_versions)
    then (
      conflict "object version already belongs to another recording",
      transition uid r quarantined "version_conflict" [] s,
    )
    else if is_null (mismatches uid head r)
    then verify now uid head.version_id r s
    else (
      conflict "object verification mismatch",
      transition uid (record r { failure_code = some "OBJECT_METADATA_MISMATCH" }) quarantined ""
          (mismatches uid head r) s,
    )

abbrev pub can_complete : RecordingState → Bool
can_complete uploading = true
can_complete uploaded = true
can_complete server_verified = true
can_complete _ = false

unfoldable pub begin_found :
    ℕ → String → Completion → Option ObjectHead → Recording → Service → Outcome Begun × Service
unfolding check_object mismatched_completion
begin_found now uid c head r s =
    if is_null (mismatched_completion uid c r)
    then if is_linked r.state && not (is_missing r.object_version_id)
      then (ok (answered (ack r true)), s)
      else if can_complete r.state
      then check_object now uid head (record r { state = uploaded })
          (transition uid r uploaded "completion_received" [] s)
      else (conflict "completion conflicts with recording state", s)
    else (
      conflict "completion contract conflicts with reservation",
      transition uid r quarantined "completion:" (mismatched_completion uid c r) s,
    )

abbrev pub begin_got :
    ℕ
    → String
    → Completion
    → Option ObjectHead
    → Service
    → Outcome Recording
    → Outcome Begun × Service
begin_got now uid c head s (err e) = (err e, s)
begin_got now uid c head s (ok r) = begin_found now uid c head r s

-- `complete` up to the call of Odoo. The storage is asked under the recording's opaque identifier.
unfoldable pub begin_complete :
    ℕ → String → Completion → Option ObjectHead → Service → Outcome Begun × Service
unfolding get
begin_complete now uid c head s = begin_got now uid c head s (get uid s)
