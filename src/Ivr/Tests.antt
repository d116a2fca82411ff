-- ===== src/Ivr/Tests.antt =====
-- A concrete session of the voice menu (app/core/ivr.py).
use codestra_middleware.Base.{
  ◌≡◌, ◌⊎◌, refl, false, List, [], ◌∷◌, none, String, ok, lookup, string_eq,
}
use codestra_middleware.Ivr.{
  Destination, IvrSession, select_main, select_entry, validate_destination, appointment_lookup,
  Confidence, Intent, classify_intent,
}
use codestra_middleware.Ivr.Scopes.{press, accepted_in_scope}

abbrev session : IvrSession
session = record {
  session_id = "s";
  call_uniqueid = "c";
  did_reference = "TST-MAIN";
  masked_caller_reference = "***1";
  business_unit = "SHARED";
  campaign = none;
  initial_language = "en";
  final_language = "en";
  ivr_path = [];
  intent_code = none;
  campaign_lock = none;
  final_result = none;
  correlation_id = "corr";
}

abbrev keys : List String
keys = "9" ∷ "1" ∷ "7" ∷ "2" ∷ "4" ∷ []

abbrev destination : Destination
destination = record {
  campaign = "DEV-GENERAL";
  native_campaign = "n";
  inbound_group = "g";
  business_unit = "DEV";
  department = "d";
  queue = "q";
  supervisor_group = "sup";
  languages = "en" ∷ [];
  permitted_transfers = [];
  callback_policy = "p";
  active = false;
}

keys_path :
    (press keys session).ivr_path
    ≡ "language-es" ∷ "transportation" ∷ "invalid-input" ∷ "development" ∷ "appointments" ∷ []
unfolding press select_main select_entry lookup
keys_path = refl

keys_route : validate_destination destination (press keys session) ≡ ok tt
unfolding press select_main select_entry lookup validate_destination
keys_route = refl

accepted_in_scope_example :
    ((d : Destination)
      → validate_destination d (press keys session) ≡ ok tt
      → (d.business_unit ≡ "DEV") × (d.campaign ≡ "DEV-GENERAL") × (d.active ≡ false))
    × ((state u c : String) (r : String × String × String)
        → appointment_lookup state u c (press keys session) ≡ ok r
        → (u ≡ "DEV") × (c ≡ "DEV-GENERAL"))
    × ((intent : String) (confidence : Confidence) (u c : String) (r : Intent)
        → classify_intent intent confidence (press keys session) u c ≡ ok r
        → (r.intent ≡ none) ⊎ ((u ≡ "DEV") × (c ≡ "DEV-GENERAL")))
accepted_in_scope_example = accepted_in_scope keys session "DEV" "DEV-GENERAL" refl
