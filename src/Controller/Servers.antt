-- ===== src/Controller/Servers.antt =====
-- The private agents that app/core/controller.py registers, and its verification records: the
-- registration body is the one of app/api/v1/controller.py.
use codestra_middleware.Base.{
  Bool, true, false, not, ◌&&◌, ◌||◌, List, [], ◌∷◌, String, ok, ◌>>=◌, ◌>>◌, raise_if, or_raise,
  contains, string_eq, ◌==◌, nat_eq, Dict, lookup, nat_beq,
}
use codestra_middleware.Raised.{Outcome, controller_error}
use codestra_middleware.Text.{lower, size, has_char}

pub record Registration : Type 0 where
  pub server_id : String
  pub spiffe_id : String
  pub private_endpoint : String
  pub profile : String
  pub certificate_sha256 : String
  pub certificate_serial : String
  pub not_after : String
  pub rotation_owner : String
  pub public_listener : Bool

-- A registered agent: its registration with the fingerprint in lower case, and its hash.
pub record AgentRecord : Type 0 where
  pub registration : Registration
  pub enabled : Bool
  pub registration_hash : String

pub record Verification : Type 0 where
  pub verification_code : String
  pub execution_id : String
  pub task_id : String
  pub tenant_id : String
  pub checks : Dict String String
  pub evidence_hash : String

abbrev pub agent_profiles : List String
agent_profiles = "DEVELOPMENT" ∷ "PRODUCTION_OBSERVER" ∷ []

abbrev pub agent_identities : Dict String String
agent_identities =
    ("middleware", "spiffe://codestra.internal/agent/middleware")
    ∷ ("qwen", "spiffe://codestra.internal/agent/qwen")
    ∷ ("web", "spiffe://codestra.internal/agent/web")
    ∷ ("vici", "spiffe://codestra.internal/agent/vici")
    ∷ []

abbrev pub agent_endpoints : Dict String String
agent_endpoints =
    ("middleware", "10.40.0.1:9443")
    ∷ ("qwen", "10.40.0.4:9443")
    ∷ ("web", "10.40.0.3:9443")
    ∷ ("vici", "10.40.0.2:9444")
    ∷ []

-- Every character is a hexadecimal digit in lower case.
unfoldable pub is_hex : String → Bool
is_hex String.[] = true
is_hex (String.◌∷◌ c s) = has_char c "0123456789abcdef" && is_hex s

-- The checks of `register_agent`, and the record that it keeps.
unfoldable pub checked_agent : (Registration → String) → Registration → Outcome AgentRecord
checked_agent hash r = do
  identity ←
      or_raise (lookup r.server_id agent_identities) (controller_error "unknown server identity")
  endpoint ←
      or_raise (lookup r.server_id agent_endpoints) (controller_error "unknown server identity")
  raise_if (not (r.spiffe_id == identity)) (controller_error "agent SPIFFE identity denied")
  raise_if (not (r.private_endpoint == endpoint)) (controller_error "agent private endpoint denied")
  raise_if (not (contains r.profile agent_profiles)) (controller_error "agent profile denied")
  let fingerprint = lower r.certificate_sha256
  raise_if (not (nat_beq (size fingerprint) 64) || not (is_hex fingerprint))
      (controller_error "agent certificate fingerprint invalid")
  raise_if r.public_listener (controller_error "public agent listener denied")
  ok (record {
    registration = record r { certificate_sha256 = fingerprint };
    enabled = false;
    registration_hash = hash r;
  })

abbrev pub pending_checks : Dict String String
pending_checks =
    ("PATCH_APPLIES", "PENDING")
    ∷ ("FORMAT", "PENDING")
    ∷ ("LINT", "PENDING")
    ∷ ("TYPECHECK", "PENDING")
    ∷ ("BUILD", "PENDING")
    ∷ ("UNIT_TESTS", "PENDING")
    ∷ ("INTEGRATION_TESTS", "PENDING")
    ∷ ("MIGRATION_TEST", "PENDING")
    ∷ ("SECURITY_SCAN", "PENDING")
    ∷ ("SECRET_SCAN", "PENDING")
    ∷ ("API_CONTRACT_TEST", "PENDING")
    ∷ ("REVIEW_BLOCKERS", "PENDING")
    ∷ ("UNEXPECTED_FILES_CHANGED", "PENDING")
    ∷ []
