-- ===== src/AiJobs/Readiness.antt =====
-- The rows that a claim selects from and their order (claim of app/core/ai_jobs.py), in plain terms.
use codestra_middleware.Base.{
  ℕ, ◌<◌, ◌≤◌, ◌≡◌, ◌↔◌, ◌⊎◌, refl, sym, subst, ◌∙◌, Bool, true, false, ◌&&◌, ◌||◌, List, Option,
  none, some, String, string_eq, contains, ==_iff, inl, inr, arith, leb,
}
use codestra_middleware.AiJobs.{
  JobState, queued, available, leased, running, retry_wait, completed, failed, cancel_requested,
  cancelled, expired, dead_letter, approval_required, approved, rejected, Job, is_after, fits,
  is_absent,
}
use codestra_middleware.AiJobs.Profiles.{names, model_runtime_classes}
use codestra_middleware.AiJobs.Admission.{
  Claim, is_waiting, profile_fits, comes_before, is_claimable,
}

-- The profile is known and, where the claim names profiles, among these.
abbrev pub IsAllowed : Option (List String) → Option String → Type 0
IsAllowed none o = (p : String) → o ≡ some p → contains p (names model_runtime_classes) ≡ true
IsAllowed (some ps) o =
    (p : String) × (o ≡ some p)
    × (contains p (names model_runtime_classes) ≡ true)
    × (contains p ps ≡ true)

-- A row that a claim may take: it waits, its time has come, it is neither cancelled nor past its
-- deadline, and it is of the caller's organization and workspace and of a profile that is allowed.
abbrev pub IsReady : ℕ → Claim → Option (List String) → Job → Type 0
IsReady now c profiles job =
    ((job.state ≡ queued) ⊎ (job.state ≡ retry_wait))
    × (job.next_attempt_at ≤ now)
    × IsAllowed profiles job.model_profile
    × ((x : String) → c.organization_id ≡ some x → x ≡ job.organization_id)
    × ((x : String) → c.workspace_id ≡ some x → x ≡ job.workspace_id)
    × (job.cancel_requested_at ≡ none)
    × ((t : ℕ) → job.deadline_at ≡ some t → now < t)

both_iff : {P Q : Type 0} (a b : Bool) → (a ≡ true) ↔ P → (b ≡ true) ↔ Q → (a && b ≡ true) ↔ (P × Q)
both_iff true b f g = (λ e. (f.0 refl, g.0 e), λ h. g.1 h.1)
both_iff false b f g = (λ e. absurd (cc), λ h. f.1 h.0)

is_waiting_iff : (s : JobState) → (is_waiting s ≡ true) ↔ ((s ≡ queued) ⊎ (s ≡ retry_wait))
unfolding is_waiting
is_waiting_iff queued = (λ _. inl refl, λ _. refl)
is_waiting_iff available = (λ e. absurd (cc), λ h. absurd (elim h [ inl e ↦ cc | inr e ↦ cc ]))
is_waiting_iff leased = (λ e. absurd (cc), λ h. absurd (elim h [ inl e ↦ cc | inr e ↦ cc ]))
is_waiting_iff running = (λ e. absurd (cc), λ h. absurd (elim h [ inl e ↦ cc | inr e ↦ cc ]))
is_waiting_iff retry_wait = (λ _. inr refl, λ _. refl)
is_waiting_iff completed = (λ e. absurd (cc), λ h. absurd (elim h [ inl e ↦ cc | inr e ↦ cc ]))
is_waiting_iff failed = (λ e. absurd (cc), λ h. absurd (elim h [ inl e ↦ cc | inr e ↦ cc ]))
is_waiting_iff cancel_requested =
    (λ e. absurd (cc), λ h. absurd (elim h [ inl e ↦ cc | inr e ↦ cc ]))
is_waiting_iff cancelled = (λ e. absurd (cc), λ h. absurd (elim h [ inl e ↦ cc | inr e ↦ cc ]))
is_waiting_iff expired = (λ e. absurd (cc), λ h. absurd (elim h [ inl e ↦ cc | inr e ↦ cc ]))
is_waiting_iff dead_letter = (λ e. absurd (cc), λ h. absurd (elim h [ inl e ↦ cc | inr e ↦ cc ]))
is_waiting_iff approval_required =
    (λ e. absurd (cc), λ h. absurd (elim h [ inl e ↦ cc | inr e ↦ cc ]))
is_waiting_iff approved = (λ e. absurd (cc), λ h. absurd (elim h [ inl e ↦ cc | inr e ↦ cc ]))
is_waiting_iff rejected = (λ e. absurd (cc), λ h. absurd (elim h [ inl e ↦ cc | inr e ↦ cc ]))

fits_iff :
    (o : Option String) (y : String) → (fits o y ≡ true) ↔ ((x : String) → o ≡ some x → x ≡ y)
unfolding fits
fits_iff none y = (λ _ x e. absurd (cc), λ _. refl)
fits_iff (some x) y = (λ e x' same. sym (cc) ∙ (==_iff x y).0 e, λ h. (==_iff x y).1 (h x refl))

is_absent_iff : (o : Option ℕ) → (is_absent o ≡ true) ↔ (o ≡ none)
is_absent_iff none = (λ _. refl, λ _. refl)
is_absent_iff (some t) = (λ e. absurd (cc), λ e. absurd (cc))

in_time_iff :
    (o : Option ℕ) (now : ℕ)
    → (is_absent o || is_after o now ≡ true) ↔ ((t : ℕ) → o ≡ some t → now < t)
unfolding is_after
in_time_iff none now = (λ _ t e. absurd (cc), λ _. refl)
in_time_iff (some t) now =
    (λ e t' same. let is : t ≡ t' = cc in ground (arith, is), λ h. ground (arith, h t refl))

profile_fits_iff :
    (profiles : Option (List String)) (o : Option String)
    → (profile_fits profiles o ≡ true) ↔ IsAllowed profiles o
unfolding profile_fits
profile_fits_iff none none = (λ _ p e. absurd (cc), λ _. refl)
profile_fits_iff none (some p) = (
  λ e x same.
      let is : p ≡ x = cc in subst (λ x. contains x (names model_runtime_classes) ≡ true) is e,
  λ h. h p refl,
)
profile_fits_iff (some ps) none = (λ e. absurd (cc), λ h. absurd (cc (h.1)))
profile_fits_iff (some ps) (some p) = (
  λ e. (p, refl, ground (arith, e), ground (arith, e)),
  λ h. let is : p ≡ h.0 = cc (h.1) in rw is (ground (arith, h.2, h.3)),
)

due_iff : (a b : ℕ) → (leb a b ≡ true) ↔ (a ≤ b)
due_iff a b = ground arith

pub is_claimable_iff :
    (now : ℕ) (c : Claim) (profiles : Option (List String)) (job : Job)
    → (is_claimable now c profiles job ≡ true) ↔ IsReady now c profiles job
unfolding is_claimable
is_claimable_iff now c profiles job =
    let waits = is_waiting_iff job.state in
    let due = due_iff job.next_attempt_at now in
    let allowed = profile_fits_iff profiles job.model_profile in
    let organization = fits_iff c.organization_id job.organization_id in
    let workspace = fits_iff c.workspace_id job.workspace_id in
    let kept = is_absent_iff job.cancel_requested_at in
    let in_time = in_time_iff job.deadline_at now in
    let all_iff =
      both_iff _ _
        (both_iff _ _
          (both_iff _ _ (both_iff _ _ (both_iff _ _ (both_iff _ _ waits due) allowed) organization)
            workspace)
          kept)
        in_time in
    (
      λ e. let ((((((w, d), a), o), s), k), t) = all_iff.0 e in (w, d, a, o, s, k, t),
      λ (w, d, a, o, s, k, t). all_iff.1 ((((((w, d), a), o), s), k), t),
    )

pub comes_before-not :
    (other old : Job)
    → comes_before other old ≡ false
    → (old.priority < other.priority)
      ⊎ ((old.priority ≡ other.priority) × (old.created_at ≤ other.created_at))
unfolding comes_before
comes_before-not other old e = ground arith
