-- ===== src/Realtime.antt =====
-- app/core/realtime.py: the delivery of screen pops to agents and their replay. The lock of the buffer
-- makes a call of publish one step; a replay takes no lock and reads the buffer once, as it is then.
-- Sequence numbers are natural numbers, also the last one that a client has seen.
pub mod Log
pub mod Replays
mod Tests
use codestra_middleware.Base.{
  ℕ, ◌+◌, Bool, true, false, not, ◌&&◌, ◌||◌, List, [], ◌∷◌, ◌++◌, Option, String, err, ok,
  raise_if, ltb, ◌==◌, string_eq, nat_eq, pair_eq, length, drop, select, contains, if◌then◌else◌, ⊤,
}
use codestra_middleware.Raised.{Outcome, permission_error}

pub record SocketScope : Type 0 where
  pub user_id : String
  pub user_session_id : String
  pub business_unit : String
  pub campaigns : List String
  pub active_call_id : String
  pub endpoint_id : String

pub record ScreenPop : Type 0 where
  pub sequence : ℕ
  pub uniqueid : String
  pub assigned_user_id : String
  pub business_unit : String
  pub campaign : String
  pub masked_customer_reference : String
  pub company : Option String
  pub lead_id : Option String
  pub customer_id : Option String
  pub language : String
  pub ivr_intent : Option String
  pub appointment : Bool
  pub compact_ai_summary : Option String
  pub high_priority_alerts : List String

unfoldable pub authorize_socket : SocketScope → ScreenPop → Outcome ⊤
authorize_socket scope event =
    raise_if
      (not (event.assigned_user_id == scope.user_id)
        || not (event.business_unit == scope.business_unit)
        || not (contains event.campaign scope.campaigns)
        || not (event.uniqueid == scope.active_call_id))
      (permission_error "cross-agent, cross-unit, campaign, or call delivery denied")

-- `(event.uniqueid, event.sequence)`
abbrev pub Identity : Type 0
Identity = String × ℕ

abbrev pub identity : ScreenPop → Identity
identity event = (event.uniqueid, event.sequence)

-- `append` to a `deque` of a greatest length drops from the left.
unfoldable pub append_bounded : {A : Type 0} → ℕ → List A → A → List A
append_bounded maximum xs x =
    if ltb (length xs) maximum then xs ++ (x ∷ []) else drop 1 (xs ++ (x ∷ []))

-- The events are in the order of their publication.
pub record ReplayBuffer : Type 0 where
  pub maximum : ℕ
  pub events : List ScreenPop
  pub seen : List Identity

abbrev pub empty_buffer : ℕ → ReplayBuffer
empty_buffer maximum = record { maximum = maximum; events = []; seen = [] }

unfoldable pub publish : ScreenPop → ReplayBuffer → Bool × ReplayBuffer
unfolding append_bounded
publish event buffer = if contains (identity event) buffer.seen then (false, buffer) else (
  true,
  record buffer {
    seen = identity event ∷ buffer.seen;
    events = append_bounded buffer.maximum buffer.events event;
  },
)

-- `e.uniqueid == uniqueid and e.sequence > last_sequence`
abbrev pub is_wanted : String → ℕ → ScreenPop → Bool
is_wanted uniqueid last_sequence e = (e.uniqueid == uniqueid) && ltb last_sequence e.sequence

unfoldable pub replay : String → ℕ → ReplayBuffer → List ScreenPop
replay uniqueid last_sequence buffer = select (is_wanted uniqueid last_sequence) buffer.events

-- The buffer after the publications, from the first to the last.
unfoldable pub publish_all : List ScreenPop → ReplayBuffer → ReplayBuffer
publish_all [] buffer = buffer
publish_all (event ∷ events) buffer = publish_all events (publish event buffer).1
