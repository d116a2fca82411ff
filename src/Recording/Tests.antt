-- ===== src/Recording/Tests.antt =====
-- The theorems on app/recording/retention.py and app/recording/service.py at one recording.
use mathlib.Core.Option
use codestra_middleware.Base.{
  ℕ, ◌≡◌, refl, true, false, none, some, String, [], ◌∷◌, map, ok, string_eq, pair_eq, lookup,
  insert,
}
use codestra_middleware.Clock.{days}
use codestra_middleware.Recording.{
  is_linked, is_missing, odoo_linked, Recording, first_blocker, decide_expiry, decide,
}
use codestra_middleware.Recording.Service.{
  ObjectHead, Reservation, reserve, add_recording, transition, get,
}
use codestra_middleware.Recording.Completion.{
  Completion, Pending, begin_complete, begin_found, mismatched_completion, check_object, mismatches,
  verify, retention_until, failing,
}
use codestra_middleware.Recording.Linking.{
  Acknowledgement, required_acknowledgement, link, link_found, is_bound,
}
use codestra_middleware.Recording.Steps.{
  System, empty_system, awaited, reserves, begins, links, Reaches, start, step,
}
use codestra_middleware.Recording.Ownership.{versions_unshared}

abbrev recording : Recording
recording = record {
  recording_uid = "r";
  environment = "test";
  campaign_key = "camp";
  call_uid = "call";
  idempotency_key = "k";
  sha256 = "h";
  file_size_bytes = 10;
  content_type = "audio/wav";
  opaque_object_identifier = "o";
  retention_class = "synthetic_test";
  vicidial_recording_id = "v";
  asterisk_uniqueid = "a";
  agent_key = "g";
  started_at = "2026-01-01";
  format = "wav";
  codec = "pcm";
  channels = 1;
  sample_rate_hz = 8000;
  state = odoo_linked;
  object_version_id = none;
  verified_at = some 1000;
  odoo_linked_at = some 2000;
  legal_hold = false;
  failure_code = none;
}

decide_runs : (decide recording 604800002000).eligible ≡ true
unfolding decide first_blocker decide_expiry lookup
decide_runs = refl

abbrev storage : String → String → String → ℕ → String × ℕ
storage opaque content_type checksum ttl = (opaque, ttl)

abbrev offered : Reservation
offered = record {
  idempotency_key = "key";
  environment = "test";
  campaign_key = "c";
  vicidial_call_id = "call";
  sha256 = "sum";
  file_size_bytes = 10;
  format = "wav";
  retention_class = "standard";
  vicidial_recording_id = "v";
  asterisk_uniqueid = "a";
  agent_key = "agent";
  started_at = "2026-01-01T00:00:00Z";
  codec = "pcm";
  channels = 1;
  sample_rate_hz = 8000;
}

abbrev sent : Completion
sent = record {
  recording_uid = some "u";
  idempotency_key = some "key";
  environment = some "test";
  campaign_key = some "c";
  sha256 = some "sum";
  file_size_bytes = some 10;
  format = some "wav";
  same_duration = true;
}

abbrev stored : ObjectHead
stored = record {
  size_bytes = 10;
  content_type = "audio/wav";
  checksum_sha256 = "sum";
  version_id = "v1";
  metadata =
      ("environment", "test")
      ∷ ("campaign_key", "c")
      ∷ ("recording_uid", "u")
      ∷ ("idempotency_key", "key")
      ∷ [];
}

abbrev uploading_system : System
uploading_system = record {
  service = (reserve storage "u" "o" offered empty_system.service).1;
  waiting = [];
}

abbrev verified_system : System
verified_system = record {
  service = (begin_complete (days 1) "u" sent (some stored) uploading_system.service).1;
  waiting = awaited (begin_complete (days 1) "u" sent (some stored) uploading_system.service).0 [];
}

abbrev sent_to_odoo : Pending
sent_to_odoo = record { recording_uid = "u"; retention_until = some (days 366) }

abbrev acknowledged : Acknowledgement
acknowledged = record {
  keys = required_acknowledgement;
  contract_version = some "1.0";
  recording_uid = some "u";
  storage_status = some "verified";
  retention_class = some "standard";
  legal_hold = some false;
  retention_until = some (days 366);
}

abbrev linked_system : System
linked_system = record {
  service = (link (days 2) sent_to_odoo (ok acknowledged) verified_system.service).1;
  waiting = [];
}

linked_reached : Reaches empty_system linked_system
unfolding lookup insert reserve begin_complete begin_found mismatched_completion check_object
    mismatches verify retention_until transition failing add_recording get
linked_reached =
    step
      (step (step start (reserves storage "u" "o" offered refl))
        (begins (days 1) "u" sent (some stored)))
      (links (days 2) sent_to_odoo (ok acknowledged) [] [] refl)

linked_state :
    Option.map (λ r. r.state) (lookup "u" linked_system.service.recordings) ≡ some odoo_linked
unfolding lookup insert reserve begin_complete begin_found mismatched_completion check_object
    mismatches verify retention_until transition failing add_recording get link link_found is_bound
linked_state = refl

versions_unshared_example :
    ((a b : String) (r q : Recording) (v : String)
      → lookup a linked_system.service.recordings ≡ some r
      → lookup b linked_system.service.recordings ≡ some q
      → r.object_version_id ≡ some v
      → q.object_version_id ≡ some v
      → a ≡ b)
    × ((a : String) (r : Recording)
        → lookup a linked_system.service.recordings ≡ some r
        → is_linked r.state ≡ true
        → is_missing r.object_version_id ≡ false)
versions_unshared_example = versions_unshared linked_system linked_reached

-- Two completions of one recording that wait at the same time: both announce it.
abbrev both_waiting : System
both_waiting = record {
  service = (begin_complete (days 1) "u" sent (some stored) verified_system.service).1;
  waiting = sent_to_odoo ∷ sent_to_odoo ∷ [];
}

abbrev linked_once : System
linked_once = record {
  service = (link (days 2) sent_to_odoo (ok acknowledged) both_waiting.service).1;
  waiting = sent_to_odoo ∷ [];
}

abbrev linked_twice : System
linked_twice = record {
  service = (link (days 2) sent_to_odoo (ok acknowledged) linked_once.service).1;
  waiting = [];
}

linked_twice_reached : Reaches empty_system linked_twice
unfolding lookup insert reserve begin_complete begin_found mismatched_completion check_object
    mismatches verify retention_until transition failing add_recording get
linked_twice_reached =
    step
      (step
        (step
          (step (step start (reserves storage "u" "o" offered refl))
            (begins (days 1) "u" sent (some stored)))
          (begins (days 1) "u" sent (some stored)))
        (links (days 2) sent_to_odoo (ok acknowledged) [] (sent_to_odoo ∷ []) refl))
      (links (days 2) sent_to_odoo (ok acknowledged) [] [] refl)

announced_twice : map (λ e. e.recording_uid) linked_twice.service.outbox ≡ "u" ∷ "u" ∷ []
unfolding lookup insert reserve begin_complete begin_found mismatched_completion check_object
    mismatches verify retention_until transition failing add_recording get link link_found is_bound
announced_twice = refl
