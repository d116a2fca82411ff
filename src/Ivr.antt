-- ===== src/Ivr.antt =====
-- app/core/ivr.py: the sessions of the voice menu and where they may be routed. HMAC and the canonical
-- JSON of the context are an argument; the confidence of an intent, a float, is known by the two tests
-- on it.
pub mod Scopes
mod Tests
use codestra_middleware.Base.{
  ℕ, Bool, true, false, not, ◌&&◌, ◌||◌, List, [], ◌∷◌, ◌++◌, Option, none, some, String, ok, err,
  ◌>>=◌, ◌>>◌, raise_if, or_default, Dict, lookup, insert, contains, ltb, ◌==◌, string_eq, pair_eq,
  if◌then◌else◌, ⊤,
}
use codestra_middleware.Raised.{Outcome, permission_error, value_error, callback_conflict}
use codestra_middleware.Text.{is_empty, starts_with}

abbrev pub business_units : List String
business_units = "TL" ∷ "DEV" ∷ "SCP" ∷ "SHARED" ∷ []

abbrev pub lookup_states : List String
lookup_states =
    "exact_match" ∷ "multiple_matches" ∷ "no_match" ∷ "restricted_match"
    ∷ "manual_verification_required" ∷ []

abbrev pub appointment_states : List String
appointment_states =
    "agent_available" ∷ "agent_busy" ∷ "agent_offline" ∷ "appointment_early" ∷ "appointment_overdue"
    ∷ "appointment_not_found" ∷ "appointment_cancelled" ∷ "reschedule_required" ∷ []

abbrev pub approved_intents : List String
approved_intents =
    "freight_quote" ∷ "dispatch_service" ∷ "medical_trip_support" ∷ "website_development"
    ∷ "mobile_development" ∷ "ai_project" ∷ "odoo_implementation" ∷ "existing_order" ∷ "reorder"
    ∷ "warranty" ∷ "billing" ∷ "appointment" ∷ "cancellation" ∷ "support" ∷ "complaint" ∷ []

pub record DidMapping : Type 0 where
  pub did_reference : String
  pub environment : String
  pub business_unit : String
  pub default_campaign : Option String
  pub root_menu : String
  pub language : String
  pub production_eligible : Bool
  pub active : Bool

pub record Destination : Type 0 where
  pub campaign : String
  pub native_campaign : String
  pub inbound_group : String
  pub business_unit : String
  pub department : String
  pub queue : String
  pub supervisor_group : String
  pub languages : List String
  pub permitted_transfers : List String
  pub callback_policy : String
  pub active : Bool

pub record IvrSession : Type 0 where
  pub session_id : String
  pub call_uniqueid : String
  pub did_reference : String
  pub masked_caller_reference : String
  pub business_unit : String
  pub campaign : Option String
  pub initial_language : String
  pub final_language : String
  pub ivr_path : List String
  pub intent_code : Option String
  pub campaign_lock : Option String
  pub final_result : Option String
  pub correlation_id : String

-- The unit, the campaign and the node of a key.
pub record MenuEntry : Type 0 where
  pub unit : String
  pub campaign : Option String
  pub node : String

abbrev pub entry : String → Option String → String → MenuEntry
entry u c n = record { unit = u; campaign = c; node = n }

abbrev pub main_menu : Dict String MenuEntry
main_menu =
    ("1", entry "TL" (some "TL-GENERAL") "transportation")
    ∷ ("2", entry "DEV" (some "DEV-GENERAL") "development")
    ∷ ("3", entry "SCP" (some "SCP-GENERAL") "senior-products")
    ∷ ("4", entry "SHARED" none "appointments")
    ∷ ("5", entry "SHARED" none "support")
    ∷ ("9", entry "SHARED" none "language-es")
    ∷ ("0", entry "SHARED" none "repeat")
    ∷ []

abbrev pub staging_did : String → String → Option String → String → DidMapping
staging_did reference unit campaign menu = record {
  did_reference = reference;
  environment = "staging";
  business_unit = unit;
  default_campaign = campaign;
  root_menu = menu;
  language = "en";
  production_eligible = false;
  active = false;
}

abbrev pub default_dids : Dict String DidMapping
default_dids =
    ("TST-MAIN", staging_did "TST-MAIN" "SHARED" none "main")
    ∷ ("TST-TL", staging_did "TST-TL" "TL" (some "TL-GENERAL") "transportation")
    ∷ ("TST-DEV", staging_did "TST-DEV" "DEV" (some "DEV-GENERAL") "development")
    ∷ ("TST-SCP", staging_did "TST-SCP" "SCP" (some "SCP-GENERAL") "senior-products")
    ∷ ("TST-SUPPORT", staging_did "TST-SUPPORT" "SHARED" none "support")
    ∷ ("TST-APPT", staging_did "TST-APPT" "SHARED" none "appointments")
    ∷ []

-- `IvrDenied` is a `PermissionError`.
abbrev pub denied {ℓ} : {A : Type ℓ} → String → Outcome A
denied message = err (permission_error message)

-- `mappings or DEFAULT_DIDS`
abbrev pub mappings_of : Option (Dict String DidMapping) → Dict String DidMapping
mappings_of none = default_dids
mappings_of (some []) = default_dids
mappings_of (some (m ∷ ms)) = m ∷ ms

unfoldable pub approved_did : Option DidMapping → Outcome DidMapping
approved_did none = denied "unknown or production-eligible DID denied"
approved_did (some m) =
    if not (m.environment == "staging") || m.production_eligible
    then denied "unknown or production-eligible DID denied"
    else ok m

unfoldable pub resolve_did : String → Option (Dict String DidMapping) → Outcome DidMapping
unfolding approved_did
resolve_did reference mappings = approved_did (lookup reference (mappings_of mappings))

abbrev pub passed : IvrSession → String → IvrSession
passed s node = record s { ivr_path = s.ivr_path ++ (node ∷ []) }

unfoldable pub select_entry : IvrSession → String → Option MenuEntry → IvrSession
select_entry s keypad none = passed s "invalid-input"
select_entry s keypad (some e) =
    if keypad == "9"
    then record (passed s e.node) { final_language = "es" }
    else if e.unit == "SHARED"
    then passed s e.node
    else record (passed s e.node) {
      business_unit = e.unit;
      campaign = e.campaign;
      campaign_lock = e.campaign;
    }

unfoldable pub select_main : IvrSession → String → IvrSession
unfolding select_entry
select_main s keypad = select_entry s keypad (lookup keypad main_menu)

abbrev pub is_lock : Option String → String → Bool
is_lock none campaign = false
is_lock (some lock) campaign = lock == campaign

unfoldable pub validate_destination : Destination → IvrSession → Outcome ⊤
validate_destination d s = do
  raise_if (not (contains d.business_unit business_units))
      (permission_error "unknown business unit")
  raise_if (is_empty d.supervisor_group || is_empty d.inbound_group)
      (permission_error "destination lacks an approved supervisor or inbound group")
  raise_if (not (s.business_unit == d.business_unit))
      (permission_error "cross-business-unit route denied")
  raise_if (not (is_lock s.campaign_lock d.campaign))
      (permission_error "cross-campaign route denied")
  raise_if d.active (permission_error "active telephony destination unavailable in staging")
  ok tt

-- What is signed of a session.
pub record Context : Type 0 where
  pub session_id : String
  pub business_unit : String
  pub campaign : Option String
  pub language : String
  pub correlation_id : String

abbrev pub context_of : IvrSession → Context
context_of s = record {
  session_id = s.session_id;
  business_unit = s.business_unit;
  campaign = s.campaign_lock;
  language = s.final_language;
  correlation_id = s.correlation_id;
}

-- A secret with its length, for `hmac` is an argument.
unfoldable pub sign_context :
    (String → Context → String) → (String → ℕ) → IvrSession → String → Outcome String
sign_context hmac length_of s secret =
    if ltb (length_of secret) 32
    then err (value_error "routing signing key is too short")
    else ok (hmac secret (context_of s))

unfoldable pub verify_context :
    (String → Context → String) → (String → ℕ) → IvrSession → String → String → Outcome Bool
unfolding sign_context
verify_context hmac length_of s secret signature =
    sign_context hmac length_of s secret >>= λ expected. ok (expected == signature)

unfoldable pub customer_lookup : String → String → Outcome (String × String)
customer_lookup state masked_reference =
    if not (contains state lookup_states) || not (starts_with "***" masked_reference)
    then err (value_error "unsafe lookup result")
    else ok (state, masked_reference)

unfoldable pub appointment_lookup :
    String → String → String → IvrSession → Outcome (String × String × String)
appointment_lookup state business_unit campaign s = do
  raise_if (not (contains state appointment_states)) (value_error "invalid appointment outcome")
  raise_if (not (s.business_unit == business_unit) || not (is_lock s.campaign_lock campaign))
      (permission_error "appointment cannot cross session scope")
  ok (state, business_unit, campaign)

-- `0 <= confidence <= 1` and `confidence < 0.85`
pub record Confidence : Type 0 where
  pub in_range : Bool
  pub is_low : Bool

-- The answer; its confidence is the one that was given, and its `fallback_menu` is a constant.
pub record Intent : Type 0 where
  pub intent : Option String
  pub business_unit : Option String
  pub campaign : Option String
  pub confirmation_required : Bool

abbrev pub unclear : Intent
unclear = record {
  intent = none;
  business_unit = none;
  campaign = none;
  confirmation_required = true;
}

unfoldable pub classify_intent : String → Confidence → IvrSession → String → String → Outcome Intent
classify_intent intent confidence s unit campaign =
    if not (contains intent approved_intents) || not confidence.in_range
    then ok unclear
    else if not (unit == s.business_unit) || not (is_lock s.campaign_lock campaign)
    then denied "AI cannot bypass campaign lock"
    else ok (record {
      intent = some intent;
      business_unit = some unit;
      campaign = some campaign;
      confirmation_required = confidence.is_low;
    })

-- The record of a reclassification.
pub record Reclassified : Type 0 where
  pub original_session : String
  pub linked_session : String
  pub reason : String

-- `is_blank` is `not reason.strip()`.
unfoldable pub reclassify :
    (String → Bool)
    → IvrSession
    → String
    → String
    → String
    → Outcome (IvrSession × IvrSession × Reclassified)
reclassify is_blank s corrected_intent new_session_id reason =
    if not (contains corrected_intent approved_intents) || is_blank reason
    then err (value_error "approved intent and reason required")
    else ok (
      record s { final_result = some "MISROUTED_IVR" },
      record (passed s "controlled-reclassification") {
        session_id = new_session_id;
        intent_code = some corrected_intent;
        final_result = none;
      },
      record { original_session = s.session_id; linked_session = new_session_id; reason = reason },
    )

-- A ledger of digests and results; the digest of a body is an argument. `IdempotencyConflict` is a
-- `ValueError`.
unfoldable pub claim_prior :
    {A : Type 0}
    → String
    → String
    → A
    → Dict String (String × A)
    → Option (String × A)
    → Outcome (A × Dict String (String × A))
claim_prior key digest result values none = ok (result, insert key (digest, result) values)
claim_prior key digest result values (some prior) =
    if prior.0 == digest
    then ok (prior.1, values)
    else err (value_error "idempotency key reused with changed body")

unfoldable pub claim :
    {A : Type 0}
    → String
    → String
    → A
    → Dict String (String × A)
    → Outcome (A × Dict String (String × A))
unfolding claim_prior
claim key digest result values = claim_prior key digest result values (lookup key values)

-- `FakeIvrAdapter.route`
unfoldable pub route : Destination → IvrSession → Outcome (String × String)
unfolding validate_destination
route d s = validate_destination d s >> ok ("synthetic_route_validated", d.campaign)
