-- ===== src/Telephony/Saga.antt =====
-- Walks along the table of the provisioning saga (app/core/telephony.py).
use codestra_middleware.Base.{◌≡◌, refl, Bool, true, List, [], ◌∷◌, String, contains, string_eq}
use codestra_middleware.Transitions.{walk, leads_to, walk-meets}
use codestra_middleware.Telephony.{saga_transitions}

-- The states that a draft reaches without an approval, without a check, and without a reservation.
abbrev unapproved : String → Bool
unapproved s = contains s ("DRAFT" ∷ "PENDING_APPROVAL" ∷ "FAILED" ∷ "ROLLED_BACK" ∷ [])

abbrev unchecked : String → Bool
unchecked s = contains s ("DRAFT" ∷ "PENDING_APPROVAL" ∷ "APPROVED" ∷ "FAILED" ∷ "ROLLED_BACK" ∷ [])

abbrev unreserved : String → Bool
unreserved s =
    contains s (
      "DRAFT" ∷ "PENDING_APPROVAL" ∷ "APPROVED" ∷ "INVENTORY_CHECK" ∷ "FAILED" ∷ "ROLLED_BACK" ∷ [])

-- A walk of allowed steps that takes a draft to ACTIVE goes through APPROVED, INVENTORY_CHECK and
-- RESERVED.
pub active_was_approved :
    (steps : List String)
    → walk saga_transitions "DRAFT" steps ≡ true
    → contains "ACTIVE" steps ≡ true
    → (contains "APPROVED" steps ≡ true)
      × (contains "INVENTORY_CHECK" steps ≡ true)
      × (contains "RESERVED" steps ≡ true)
unfolding leads_to
active_was_approved steps w a = (
  walk-meets unapproved "APPROVED" saga_transitions "DRAFT" "ACTIVE" steps refl refl refl w a,
  walk-meets unchecked "INVENTORY_CHECK" saga_transitions "DRAFT" "ACTIVE" steps refl refl refl w a,
  walk-meets unreserved "RESERVED" saga_transitions "DRAFT" "ACTIVE" steps refl refl refl w a,
)
