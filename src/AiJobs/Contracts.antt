-- ===== src/AiJobs/Contracts.antt =====
-- AICommand of app/core/ai_contracts.py, which pydantic validates when a command is built, and
-- build_browser_worker_contract of app/core/ai_jobs.py. A `ValidationError` is a `ValueError`.
use Prim.Native.Char.{Char, code}
use codestra_middleware.Base.{
  ℕ, ◌+◌, ◌-◌, ◌*◌, Bool, true, false, not, ◌&&◌, ◌||◌, List, [], ◌∷◌, Option, none, some, String,
  ok, err, ◌>>=◌, ◌>>◌, raise_if, Dict, ltb, leb, nat_beq, string_eq, lookup, contains, any,
}
use codestra_middleware.Clock.{minutes, seconds}
use codestra_middleware.Json.{Value, text}
use codestra_middleware.Raised.{Outcome, value_error}
use codestra_middleware.Text.{lower, size}
use codestra_middleware.AiJobs.Profiles.{resolve_browser_model_profile}

pub data CommandType : Type 0 where
  chat coding crm voice embeddings : CommandType

pub record ModelPolicy : Type 0 where
  pub profile : String
  pub max_tokens : ℕ

pub record ResourceLimits : Type 0 where
  pub runtime_seconds : ℕ
  pub output_bytes : ℕ
  pub retry_count : ℕ
  pub token_budget : ℕ

-- The fields that validation or the queue reads; the temperature has its default. `requested_at` and
-- `deadline_at` have a time zone.
pub record AiCommand : Type 0 where
  pub command_id : String
  pub command_type : CommandType
  pub tenant_id : String
  pub actor_id : String
  pub correlation_id : String
  pub idempotency_key : String
  pub priority : ℕ
  pub requested_at : ℕ
  pub deadline_at : ℕ
  pub input : Dict String Value
  pub model_policy : ModelPolicy
  pub resource_limits : ResourceLimits
  pub approval_required : Bool
  pub metadata : Dict String String

abbrev pub allowed_profiles : CommandType → List String
allowed_profiles chat = "fast-chat" ∷ "quality-chat" ∷ []
allowed_profiles coding = "coding-default" ∷ "coding-large" ∷ []
allowed_profiles crm = "crm-analysis" ∷ []
allowed_profiles voice = "voice-summary" ∷ []
allowed_profiles embeddings = "embedding-default" ∷ []

abbrev pub forbidden_inputs : List String
forbidden_inputs =
    "shell" ∷ "command" ∷ "provider_url" ∷ "endpoint" ∷ "credentials" ∷ "password" ∷ "token" ∷ []

abbrev pub is_business : CommandType → Bool
is_business crm = true
is_business voice = true
is_business _ = false

abbrev pub between : ℕ → ℕ → ℕ → Bool
between low high n = leb low n && leb n high

-- The class `[A-Za-z0-9._:-]`.
unfoldable pub is_reference : Char → Bool
is_reference c =
    (leb b'A' (code c) && leb (code c) b'Z')
    || (leb b'a' (code c) && leb (code c) b'z')
    || (leb b'0' (code c) && leb (code c) b'9')
    || nat_beq (code c) b'.'
    || nat_beq (code c) b'_'
    || nat_beq (code c) b':'
    || nat_beq (code c) b'-'

abbrev pub all_chars : (Char → Bool) → String → Bool
all_chars p String.[] = true
all_chars p (String.◌∷◌ c s) = p c && all_chars p s

-- The limits of the single fields.
unfoldable pub fields_fit : AiCommand → Bool
unfolding size is_reference
fields_fit c =
    between 1 128 (size c.actor_id)
    && between 8 128 (size c.correlation_id)
    && all_chars is_reference c.correlation_id
    && between 16 255 (size c.idempotency_key)
    && leb c.priority 9
    && between 1 8192 c.model_policy.max_tokens
    && between 1 600 c.resource_limits.runtime_seconds
    && between 1 1048576 c.resource_limits.output_bytes
    && leb c.resource_limits.retry_count 5
    && between 1 32768 c.resource_limits.token_budget

abbrev pub mentions_forbidden : Dict String Value → Bool
mentions_forbidden input = any (λ p. contains (lower p.0) forbidden_inputs) input

-- `encoded` is the length of `model_dump_json().encode()`.
module _ (encoded : AiCommand → ℕ) where
  unfoldable pub policy_consistency : AiCommand → Outcome AiCommand
  policy_consistency c = do
    raise_if (leb c.deadline_at c.requested_at) (value_error "deadline must follow requested_at")
    raise_if (ltb (seconds 3600) (c.deadline_at - c.requested_at))
        (value_error "deadline exceeds one-hour policy")
    raise_if (not (contains c.model_policy.profile (allowed_profiles c.command_type)))
        (value_error "unsupported model policy")
    raise_if (ltb 131072 (encoded c)) (value_error "command payload exceeds policy")
    raise_if (mentions_forbidden c.input) (value_error "privileged input field is forbidden")
    raise_if (is_business c.command_type && not c.approval_required)
        (value_error "business command proposals require approval")
    ok c

  -- `AICommand(...)`
  unfoldable pub validated : AiCommand → Outcome AiCommand
  validated c = do
    raise_if (not (fields_fit c)) (value_error "validation error")
    policy_consistency c

-- `BROWSER_CAPABILITY_COMMAND_TYPES` and `BROWSER_CAPABILITY_MAX_TOKENS`
abbrev pub capabilities : Dict String (CommandType × ℕ)
capabilities = ("chat", (chat, 2048)) ∷ ("coding", (coding, 4096)) ∷ []

-- What the console asks for.
pub record BrowserRequest : Type 0 where
  pub conversation_id : String
  pub organization_id : String
  pub workspace_id : String
  pub user_id : String
  pub content : String
  pub task_type : String
  pub project_key : Option String
  pub idempotency_key : String
  pub correlation_id : String
  pub max_attempts : ℕ

abbrev pub input_of : BrowserRequest → Dict String Value
input_of r = elim r.project_key [
  | none ↦ ("text", text r.content) ∷ []
  | some key ↦ ("text", text r.content) ∷ ("project_key", text key) ∷ []
]

abbrev pub browser_command : ℕ → String → BrowserRequest → String → CommandType × ℕ → AiCommand
browser_command now job_id r profile capability = record {
  command_id = job_id;
  command_type = capability.0;
  tenant_id = r.organization_id;
  actor_id = r.user_id;
  correlation_id = r.correlation_id;
  idempotency_key = r.idempotency_key;
  priority = 5;
  requested_at = now;
  deadline_at = now + minutes 10;
  input = input_of r;
  model_policy = record { profile = profile; max_tokens = capability.1 };
  resource_limits = record {
    runtime_seconds = 300;
    output_bytes = 262144;
    retry_count = r.max_attempts - 1;
    token_budget = capability.1 * 2;
  };
  approval_required = false;
  metadata =
      ("source", "ai-console")
      ∷ ("conversation_id", r.conversation_id)
      ∷ ("capability", r.task_type)
      ∷ [];
}

module _ (encoded : AiCommand → ℕ) where
  -- `max_attempts - 1` is negative at 0, which validation refuses.
  unfoldable pub build_with :
      ℕ → String → BrowserRequest → String → Option (CommandType × ℕ) → Outcome AiCommand
  build_with now job_id r profile none = err (value_error "unsupported_browser_capability")
  build_with now job_id r profile (some capability) = do
    raise_if (nat_beq r.max_attempts 0) (value_error "validation error")
    validated encoded (browser_command now job_id r profile capability)

  unfoldable pub build_browser_worker_contract : ℕ → String → BrowserRequest → Outcome AiCommand
  build_browser_worker_contract now job_id r = do
    profile ← resolve_browser_model_profile r.task_type
    build_with now job_id r profile (lookup r.task_type capabilities)
