-- ===== src/Leads.antt =====
-- app/core/lead_reconciliation.py: which lead of the CRM an incoming one is, and what is done with it.
-- A Python set of candidates is the list of its elements without repetitions.
pub mod Members
mod Tests
use codestra_middleware.Base.{
  ℕ, Bool, true, false, not, ◌&&◌, ◌||◌, List, [], ◌∷◌, Option, none, some, String, ok, err, ◌>>◌,
  raise_if, ltb, length, contains, select, ◌==◌, string_eq, nat_eq, pair_eq, if◌then◌else◌, ⊤,
}
use codestra_middleware.Raised.{Outcome, permission_error}
use codestra_middleware.Text.{lower}

pub data MatchStatus : Type 0 where
  mapped external_reference unique_phone unique_email review_required identity_conflict no_match :
      MatchStatus

pub data SyncAction : Type 0 where
  no_change create update deactivate withdraw suppress reactivate_after_approval needs_review
        has_conflict :
      SyncAction

-- A candidate: its model and its number, which are its key.
abbrev pub Candidate : Type 0
Candidate = String × ℕ

pub record Resolution : Type 0 where
  pub status : MatchStatus
  pub candidate : Option Candidate
  pub reason : String

abbrev pub resolved : MatchStatus → Option Candidate → String → Resolution
resolved s c r = record { status = s; candidate = c; reason = r }

-- `_unique`
unfoldable pub unique : List Candidate → List Candidate
unique [] = []
unique (c ∷ cs) = c ∷ select (λ d. not (d == c)) (unique cs)

-- `next(iter(candidates), None)`, of a set of one element at most.
abbrev pub only : List Candidate → Option Candidate
only [] = none
only (c ∷ cs) = some c

unfoldable pub resolve_pair : Option Candidate → Option Candidate → Resolution
resolve_pair (some p) (some e) =
    if not (p == e)
    then resolved identity_conflict none "PHONE_EMAIL_CONFLICT"
    else resolved unique_phone (some p) ""
resolve_pair (some p) none = resolved unique_phone (some p) ""
resolve_pair none (some e) = resolved unique_email (some e) ""
resolve_pair none none = resolved no_match none ""

unfoldable pub resolve_sets : List Candidate → List Candidate → Resolution
unfolding resolve_pair
resolve_sets phones emails =
    if ltb 1 (length phones)
    then resolved review_required none "PHONE_AMBIGUOUS"
    else if ltb 1 (length emails)
    then resolved review_required none "EMAIL_AMBIGUOUS"
    else resolve_pair (only phones) (only emails)

unfoldable pub resolve_identity :
    Option Candidate → Option Candidate → List Candidate → List Candidate → Resolution
unfolding resolve_sets unique
resolve_identity (some m) external phones emails = resolved mapped (some m) ""
resolve_identity none (some x) phones emails = resolved external_reference (some x) ""
resolve_identity none none phones emails = resolve_sets (unique phones) (unique emails)

-- `SuppressionUnavailable` and `SuppressionActive` are `PermissionError`s.
unfoldable pub verify_suppression : Bool → Bool → String → Outcome ⊤
verify_suppression available active consent = do
  raise_if (not available) (permission_error "SUPPRESSION_STATE_UNAVAILABLE")
  raise_if (active || not (contains (lower consent) ("granted" ∷ "approved" ∷ [])))
      (permission_error "SUPPRESSION_ACTIVE")
  ok tt

abbrev pub action_of : Bool → MatchStatus → SyncAction
action_of payload_changed review_required = needs_review
action_of payload_changed identity_conflict = has_conflict
action_of payload_changed no_match = create
action_of payload_changed _ = if payload_changed then update else no_change

unfoldable pub decide_action : Resolution → Bool → Bool → String → Bool → Bool → Outcome SyncAction
unfolding verify_suppression
decide_action r available active consent eligible payload_changed =
    verify_suppression available active consent
    >> ok (if not eligible then withdraw else action_of payload_changed r.status)
