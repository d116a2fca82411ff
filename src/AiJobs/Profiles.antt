-- ===== src/AiJobs/Profiles.antt =====
-- The model profiles of app/core/ai_jobs.py, and which of them may run beside the active ones. A
-- `frozenset` is the list of its members in the order of the table.
use codestra_middleware.Base.{
  ◌≡◌, refl, Bool, true, false, ◌||◌, List, [], ◌∷◌, map, Option, none, some, String, Dict, ok, err,
  string_eq, lookup, or_default, contains, all, select, if◌then◌else◌,
}
use codestra_middleware.Raised.{Outcome, value_error}

pub data RuntimeClass : Type 0 where
  chat_light coding_fallback single_admission unavailable : RuntimeClass

abbrev pub class_beq : RuntimeClass → RuntimeClass → Bool
class_beq chat_light chat_light = true
class_beq coding_fallback coding_fallback = true
class_beq single_admission single_admission = true
class_beq unavailable unavailable = true
class_beq _ _ = false

abbrev pub model_runtime_classes : Dict String RuntimeClass
model_runtime_classes =
    ("fast-chat", chat_light)
    ∷ ("crm-analysis", chat_light)
    ∷ ("coding-default", coding_fallback)
    ∷ ("quality-chat", single_admission)
    ∷ ("coding-large", single_admission)
    ∷ ("voice-summary", single_admission)
    ∷ ("embedding-default", unavailable)
    ∷ []

abbrev pub browser_capability_profiles : Dict String String
browser_capability_profiles = ("chat", "fast-chat") ∷ ("coding", "coding-default") ∷ []

abbrev pub names : Dict String RuntimeClass → List String
names = map (λ p. p.0)

unfoldable pub resolve_browser_model_profile : String → Outcome String
unfolding lookup
resolve_browser_model_profile task_type = elim (lookup task_type browser_capability_profiles) [
  | none ↦ err (value_error "unsupported_browser_capability")
  | some profile ↦
      if contains profile (names model_runtime_classes)
      then ok profile
      else err (value_error "unsupported_browser_capability")
]

-- `MODEL_RUNTIME_CLASSES.get(profile or "")`
unfoldable pub class_of : Option String → Option RuntimeClass
unfolding lookup
class_of profile = lookup (or_default "" profile) model_runtime_classes

abbrev pub is_class : RuntimeClass → Option RuntimeClass → Bool
is_class c none = false
is_class c (some d) = class_beq c d

-- The one class of all profiles; `none` where one has no class, or two differ.
unfoldable pub common_with : Option RuntimeClass → List (Option String) → Option RuntimeClass
common_with none rest = none
common_with (some c) rest = if all (λ p. is_class c (class_of p)) rest then some c else none

unfoldable pub common_class : Option String → List (Option String) → Option RuntimeClass
unfolding common_with
common_class first rest = common_with (class_of first) rest

unfoldable pub runtime_class_compatibility : RuntimeClass → List RuntimeClass
runtime_class_compatibility chat_light = chat_light ∷ []
runtime_class_compatibility coding_fallback = coding_fallback ∷ []
runtime_class_compatibility single_admission = []
runtime_class_compatibility unavailable = []

abbrev pub class_in : RuntimeClass → List RuntimeClass → Bool
class_in c [] = false
class_in c (d ∷ ds) = class_beq c d || class_in c ds

-- The profiles of the classes that may run beside an active class; none beside an unclear one.
unfoldable pub beside : Option RuntimeClass → List String
unfolding runtime_class_compatibility
beside none = []
beside (some active) =
    names (select (λ p. class_in p.1 (runtime_class_compatibility active)) model_runtime_classes)

unfoldable pub compatible_profiles : List (Option String) → List String
unfolding beside common_class
compatible_profiles [] = names model_runtime_classes
compatible_profiles (first ∷ rest) = beside (common_class first rest)

unfoldable pub effective_compatible_profiles :
    List (Option String) → Option (List String) → List String
unfolding compatible_profiles
effective_compatible_profiles active none = compatible_profiles active
effective_compatible_profiles active (some requested) =
    select (λ p. contains p requested) (compatible_profiles active)

compatible_runs : compatible_profiles (some "fast-chat" ∷ []) ≡ "fast-chat" ∷ "crm-analysis" ∷ []
unfolding compatible_profiles class_of lookup
compatible_runs = refl
