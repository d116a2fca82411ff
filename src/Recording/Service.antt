-- ===== src/Recording/Service.antt =====
-- The ingest of recordings: RecordingService of app/recording/service.py. A method that changes the
-- service before it raises answers with an outcome and with the service that it leaves. `complete` awaits
-- the acknowledgement of Odoo, so it is two steps: `begin_complete` up to the call and `link` after it.
-- The answers of the storage and of Odoo and what uuid4 and the clock give are arguments.

use codestra_middleware.Base.{
  ℕ, ◌+◌, Bool, false, List, [], ◌∷◌, Option, none, some, String, ok, err, or_raise, Dict, lookup,
  insert, length, select, ◌==◌, string_eq, nat_eq, pair_eq,
}
use codestra_middleware.Raised.{Outcome, key_error, lookup_error, value_error}
use codestra_middleware.Recording.{RecordingState, reservation_created, uploading, Recording}

-- The reason's label; the names that the source joins to it stand apart.
pub record StateAudit : Type 0 where
  pub recording_uid : String
  pub sequence : ℕ
  pub from_state : RecordingState
  pub to_state : RecordingState
  pub reason : String
  pub fields : List String

pub record ObjectHead : Type 0 where
  pub size_bytes : ℕ
  pub content_type : String
  pub checksum_sha256 : String
  pub version_id : String
  pub metadata : Dict String String

pub record Reserved : Type 0 where
  pub recording_uid : String
  pub upload_url : String
  pub upload_url_expires_at : ℕ
  pub required_content_type : String
  pub opaque_object_identifier : String

pub record Ack : Type 0 where
  pub recording_uid : String
  pub state : RecordingState
  pub checksum_verified : Bool
  pub is_odoo_linked : Bool
  pub duplicate : Bool

-- The event for n8n.
pub record Projection : Type 0 where
  pub environment : String
  pub recording_uid : String
  pub call_uid : String
  pub campaign_key : String
  pub sha256 : String
  pub object_version_id : Option String
  pub retention_class : String

-- The audit trail and the outbox are newest first.
pub record Service : Type 0 where
  pub recordings : Dict String Recording
  pub by_idempotency : Dict (String × String) String
  pub reservation_responses : Dict String Reserved
  pub object_versions : Dict String String
  pub failure_results : Dict (String × String) Ack
  pub audit : List StateAudit
  pub outbox : List Projection

-- `RecordingConflict` is a `RuntimeError`.
abbrev pub conflict {ℓ} : {A : Type ℓ} → String → Outcome A
conflict message = err (value_error message)

abbrev pub is_of : String → StateAudit → Bool
is_of uid a = a.recording_uid == uid

-- `_transition`: the recording as it is changed so far, its new state, and the audit record.
unfoldable pub transition :
    String → Recording → RecordingState → String → List String → Service → Service
transition uid r state reason fields s = record s {
  recordings = insert uid (record r { state = state }) s.recordings;
  audit =
      record {
        recording_uid = uid;
        sequence = length (select (is_of uid) s.audit) + 1;
        from_state = r.state;
        to_state = state;
        reason = reason;
        fields = fields;
      }
      ∷ s.audit;
}

unfoldable pub get : String → Service → Outcome Recording
get uid s = or_raise (lookup uid s.recordings) (lookup_error uid)

-- `payload["recording"]` with the key of the payload.
pub record Reservation : Type 0 where
  pub idempotency_key : String
  pub environment : String
  pub campaign_key : String
  pub vicidial_call_id : String
  pub sha256 : String
  pub file_size_bytes : ℕ
  pub format : String
  pub retention_class : String
  pub vicidial_recording_id : String
  pub asterisk_uniqueid : String
  pub agent_key : String
  pub started_at : String
  pub codec : String
  pub channels : ℕ
  pub sample_rate_hz : ℕ

abbrev pub content_types : Dict String String
content_types = ("mp3", "audio/mpeg") ∷ ("wav", "audio/wav") ∷ ("gsm", "audio/gsm") ∷ []

abbrev pub fresh_recording : String → String → String → Reservation → Recording
fresh_recording uid opaque content_type m = record {
  recording_uid = uid;
  environment = m.environment;
  campaign_key = m.campaign_key;
  call_uid = m.vicidial_call_id;
  idempotency_key = m.idempotency_key;
  sha256 = m.sha256;
  file_size_bytes = m.file_size_bytes;
  content_type = content_type;
  opaque_object_identifier = opaque;
  retention_class = m.retention_class;
  vicidial_recording_id = m.vicidial_recording_id;
  asterisk_uniqueid = m.asterisk_uniqueid;
  agent_key = m.agent_key;
  started_at = m.started_at;
  format = m.format;
  codec = m.codec;
  channels = m.channels;
  sample_rate_hz = m.sample_rate_hz;
  state = reservation_created;
  object_version_id = none;
  verified_at = none;
  odoo_linked_at = none;
  legal_hold = false;
  failure_code = none;
}

abbrev pub reservation_response : Recording → String × ℕ → Reserved
reservation_response r link = record {
  recording_uid = r.recording_uid;
  upload_url = link.0;
  upload_url_expires_at = link.1;
  required_content_type = r.content_type;
  opaque_object_identifier = r.opaque_object_identifier;
}

-- A new recording under the drawn identifiers and the content type of its format; `storage` signs the
-- upload.
unfoldable pub add_recording :
    (String → String → String → ℕ → String × ℕ)
    → String
    → String
    → Reservation
    → Service
    → Option String
    → Outcome Reserved × Service
unfolding transition
add_recording storage uid opaque m s none = (err (key_error m.format), s)
add_recording storage uid opaque m s (some content_type) =
    let r = fresh_recording uid opaque content_type m in
    let response = reservation_response r (storage opaque content_type m.sha256 300) in
    let s' = record s {
      recordings = insert uid r s.recordings;
      by_idempotency = insert (m.environment, m.idempotency_key) uid s.by_idempotency;
    } in
    let t = transition uid r uploading "upload_authorized" [] s' in
    (ok response, record t { reservation_responses = insert uid response t.reservation_responses })

abbrev pub reserve_again :
    (String → String → String → ℕ → String × ℕ)
    → String
    → String
    → Reservation
    → Service
    → Option String
    → Outcome Reserved × Service
reserve_again storage uid opaque m s (some known) =
    (or_raise (lookup known s.reservation_responses) (key_error known), s)
reserve_again storage uid opaque m s none =
    add_recording storage uid opaque m s (lookup m.format content_types)

unfoldable pub reserve :
    (String → String → String → ℕ → String × ℕ)
    → String
    → String
    → Reservation
    → Service
    → Outcome Reserved × Service
unfolding add_recording
reserve storage uid opaque m s =
    reserve_again storage uid opaque m s
      (lookup (m.environment, m.idempotency_key) s.by_idempotency)
