-- ===== src/Recording/Linking.antt =====
-- RecordingService.complete of app/recording/service.py after the call of Odoo, failure and
-- playback_url.

use codestra_middleware.Base.{
  ℕ, Bool, true, false, not, ◌&&◌, ◌||◌, List, [], ◌∷◌, Option, none, some, String, ok, err, ◌>>=◌,
  lookup, insert, all, contains, min, nat_beq, ◌==◌, string_eq, nat_eq, pair_eq, if◌then◌else◌,
}
use codestra_middleware.Raised.{Outcome, permission_error}
use codestra_middleware.Recording.{odoo_linked, failed, Recording, is_linked}
use codestra_middleware.Recording.Service.{Ack, Projection, Service, conflict, transition, get}
use codestra_middleware.Text.{is_empty}
use codestra_middleware.Recording.Completion.{agrees, ack, Pending}

-- What Odoo answers: the keys of the acknowledgement and the values that are checked.
pub record Acknowledgement : Type 0 where
  pub keys : List String
  pub contract_version : Option String
  pub recording_uid : Option String
  pub storage_status : Option String
  pub retention_class : Option String
  pub legal_hold : Option Bool
  pub retention_until : Option ℕ

abbrev pub required_acknowledgement : List String
required_acknowledgement =
    "contract_version" ∷ "recording_uid" ∷ "odoo_record_id" ∷ "call_link_status"
    ∷ "lead_link_status" ∷ "campaign_link_status" ∷ "agent_link_status" ∷ "storage_status"
    ∷ "retention_class" ∷ "retention_until" ∷ "legal_hold" ∷ "updated_at" ∷ []

abbrev pub same_keys : List String → List String → Bool
same_keys xs ys = all (λ x. contains x ys) xs && all (λ y. contains y xs) ys

abbrev pub is_flag : Option Bool → Bool → Bool
is_flag none b = false
is_flag (some true) b = b
is_flag (some false) b = not b

unfoldable pub is_bound : String → Acknowledgement → Recording → Bool
is_bound uid a r =
    agrees a.contract_version "1.0"
    && agrees a.recording_uid uid
    && agrees a.storage_status "verified"
    && agrees a.retention_class r.retention_class
    && is_flag a.legal_hold r.legal_hold

abbrev pub same_instant : Option ℕ → Option ℕ → Bool
same_instant none none = true
same_instant (some m) (some n) = nat_beq m n
same_instant _ _ = false

abbrev pub projection : Recording → Projection
projection r = record {
  environment = r.environment;
  recording_uid = r.recording_uid;
  call_uid = r.call_uid;
  campaign_key = r.campaign_key;
  sha256 = r.sha256;
  object_version_id = r.object_version_id;
  retention_class = r.retention_class;
}

-- The recording as it stands when Odoo has answered, which is not as it stood before the call.
unfoldable pub link_found :
    ℕ → Pending → Outcome Acknowledgement → Recording → Service → Outcome Ack × Service
unfolding is_bound transition
link_found now p (err e) r s =
    let f = record r { failure_code = some "ODOO_UPSERT_FAILED" } in
    (err e, record s { recordings = insert p.recording_uid f s.recordings })
link_found now p (ok a) r s =
    if not (same_keys a.keys required_acknowledgement)
    then (conflict "canonical Odoo acknowledgement required", s)
    else if not (is_bound p.recording_uid a r)
    then (conflict "Odoo acknowledgement binding mismatch", s)
    else if not (same_instant a.retention_until p.retention_until)
    then (conflict "Odoo acknowledgement retention mismatch", s)
    else let l = record r { odoo_linked_at = some now } in
      let t = transition p.recording_uid l odoo_linked "odoo_acknowledged" [] s in
      (
        ok (ack (record l { state = odoo_linked }) false),
        record t { outbox = projection l ∷ t.outbox },
      )

abbrev pub link_got :
    ℕ → Pending → Outcome Acknowledgement → Service → Outcome Recording → Outcome Ack × Service
link_got now p reply s (err e) = (err e, s)
link_got now p reply s (ok r) = link_found now p reply r s

-- `complete` after the call of Odoo, which has answered or raised.
unfoldable pub link : ℕ → Pending → Outcome Acknowledgement → Service → Outcome Ack × Service
unfolding get
link now p reply s = link_got now p reply s (get p.recording_uid s)

unfoldable pub failure_of : String → String → String → Recording → Service → Outcome Ack × Service
unfolding transition
failure_of uid code key r s =
    if is_empty key || not (key == r.idempotency_key)
    then (conflict "failure idempotency binding mismatch", s)
    else let f = record r { failure_code = some code } in
      let result = ack (record f { state = failed }) false in
      let t = transition uid f failed code [] s in
      (ok result, record t { failure_results = insert (uid, key) result t.failure_results })

abbrev pub failure_again :
    String → String → String → Recording → Service → Option Ack → Outcome Ack × Service
failure_again uid code key r s (some known) = (ok (record known { duplicate = true }), s)
failure_again uid code key r s none = failure_of uid code key r s

abbrev pub failure_got :
    String → String → String → Service → Outcome Recording → Outcome Ack × Service
failure_got uid code key s (err e) = (err e, s)
failure_got uid code key s (ok r) =
    failure_again uid code key r s (lookup (uid, key) s.failure_results)

unfoldable pub failure : String → String → String → Service → Outcome Ack × Service
unfolding get
failure uid code key s = failure_got uid code key s (get uid s)

abbrev pub played :
    (String → String → ℕ → String) → ℕ → Recording → Option String → Outcome (String × ℕ)
played presign ttl r none = err (permission_error "recording is not playable")
played presign ttl r (some version) =
    if not (is_linked r.state) || is_empty version || r.legal_hold
    then err (permission_error "recording is not playable")
    else ok (presign r.opaque_object_identifier version ttl, ttl)

-- `storage.presign_read` signs the reading.
unfoldable pub playback_url :
    (String → String → ℕ → String) → String → Bool → ℕ → Service → Outcome (String × ℕ)
unfolding get
playback_url presign uid scope_authorized ttl_seconds s = get uid s >>= λ r.
    if not scope_authorized
    then err (permission_error "playback scope denied")
    else played presign (min ttl_seconds 120) r r.object_version_id
