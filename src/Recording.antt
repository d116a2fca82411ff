-- ===== src/Recording.antt =====
-- When a recording may be deleted: app/recording/domain.py and the retention engine of
-- app/recording/retention.py. Instants are in microseconds (Clock); the duration (a float) and the
-- results of the automation are left out of a recording.
use codestra_middleware.Base.{
  ℕ, ◌+◌, max, Bool, true, false, not, Option, none, some, List, [], ◌∷◌, String, if◌then◌else◌,
  string_eq, ltb, Dict, lookup,
}
use codestra_middleware.Clock.{days}
pub mod Retention
pub mod Service
pub mod Completion
pub mod Linking
pub mod Steps
pub mod Versions
pub mod Ownership
pub mod Tests

pub data RecordingState : Type 0 where
  reservation_created uploading uploaded server_verified odoo_linked quarantined failed :
      RecordingState

pub record Recording : Type 0 where
  pub recording_uid : String
  pub environment : String
  pub campaign_key : String
  pub call_uid : String
  pub idempotency_key : String
  pub sha256 : String
  pub file_size_bytes : ℕ
  pub content_type : String
  pub opaque_object_identifier : String
  pub retention_class : String
  pub vicidial_recording_id : String
  pub asterisk_uniqueid : String
  pub agent_key : String
  pub started_at : String
  pub format : String
  pub codec : String
  pub channels : ℕ
  pub sample_rate_hz : ℕ
  pub state : RecordingState
  pub object_version_id : Option String
  pub verified_at : Option ℕ
  pub odoo_linked_at : Option ℕ
  pub legal_hold : Bool
  pub failure_code : Option String

abbrev pub retention_days : Dict String ℕ
retention_days = ("synthetic_test", 7) ∷ ("standard", 365) ∷ ("high_compliance", 1825) ∷ []

pub record RetentionDecision : Type 0 where
  pub recording_uid : String
  pub eligible : Bool
  pub reason : String
  pub eligible_at : Option ℕ
  pub delete_executed : Bool

abbrev pub local_server_b_grace_days : ℕ
local_server_b_grace_days = 7

abbrev pub is_linked : RecordingState → Bool
is_linked odoo_linked = true
is_linked _ = false

abbrev pub is_quarantined : RecordingState → Bool
is_quarantined quarantined = true
is_quarantined _ = false

abbrev pub is_missing {ℓ} : {A : Type ℓ} → Option A → Bool
is_missing none = true
is_missing (some a) = false

-- The first blocker that applies.
unfoldable pub first_blocker : List (Bool × String) → Option String
first_blocker [] = none
first_blocker ((blocked, reason) ∷ blockers) =
    let rest = first_blocker blockers in if blocked then some reason else rest

abbrev pub blockers : Recording → List (Bool × String)
blockers r =
    (not (is_linked r.state), "ODOO_UNLINKED")
    ∷ (is_missing r.verified_at, "UPLOAD_UNVERIFIED")
    ∷ (is_missing r.odoo_linked_at, "ODOO_UNLINKED")
    ∷ (is_quarantined r.state, "QUARANTINED")
    ∷ (r.legal_hold, "LEGAL_HOLD")
    ∷ (is_missing (lookup r.retention_class retention_days), "POLICY_UNRESOLVED")
    ∷ []

abbrev pub refused : Recording → String → Option ℕ → RetentionDecision
refused r reason at = record {
  recording_uid = r.recording_uid;
  eligible = false;
  reason = reason;
  eligible_at = at;
  delete_executed = false;
}

-- The decision on a recording that nothing blocks; without its times and its class, which the
-- blockers rule out, it is refused.
unfoldable pub decide_expiry : Recording → ℕ → Option ℕ → Option ℕ → Option ℕ → RetentionDecision
decide_expiry r now (some verified_at) (some linked_at) (some kept_days) =
    let eligible_at =
      max (verified_at + days kept_days) (linked_at + days local_server_b_grace_days) in
    if ltb now eligible_at then refused r "NOT_BEFORE_EXPIRY" (some eligible_at) else record {
      recording_uid = r.recording_uid;
      eligible = true;
      reason = "ELIGIBLE_DELETE_DISABLED";
      eligible_at = some eligible_at;
      delete_executed = false;
    }
decide_expiry r now _ _ _ = refused r "POLICY_UNRESOLVED" none

-- `RetentionEngine.decide`
unfoldable pub decide : Recording → ℕ → RetentionDecision
decide r now =
    let decision =
      decide_expiry r now r.verified_at r.odoo_linked_at
        (lookup r.retention_class retention_days) in
    elim (first_blocker (blockers r)) [ some reason ↦ refused r reason none | none ↦ decision ]
