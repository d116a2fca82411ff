-- ===== src/AiJobs/Company.antt =====
-- What may run beside what (claim of app/core/ai_jobs.py): the limit of a worker, and the runtime
-- classes of the jobs that it runs at once in the organization and workspace of a claim.
use codestra_middleware.Base.{
  Bool, false, ◌&&◌, List, [], ◌∷◌, Option, none, some, String, string_eq, pair_eq, select,
}
use codestra_middleware.AiJobs.Profiles.{
  RuntimeClass, chat_light, coding_fallback, class_of, is_class, runtime_class_compatibility,
  class_in, names, model_runtime_classes,
}

-- Both profiles are of one class, and that class admits company.
abbrev pub share_class : Option RuntimeClass → Option RuntimeClass → Bool
share_class none other = false
share_class (some c) other = class_in c (chat_light ∷ coding_fallback ∷ []) && is_class c other

unfoldable pub shares : Option String → Option String → Bool
shares p other = share_class (class_of p) (class_of other)

-- The profiles of a class.
abbrev of_class : RuntimeClass → List String
of_class active =
    names (select (λ p. class_in p.1 (runtime_class_compatibility active)) model_runtime_classes)
