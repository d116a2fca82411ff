-- ===== src/Realtime/Tests.antt =====
-- Concrete screen pops (app/core/realtime.py).
use codestra_middleware.Base.{ℕ, String, ◌≡◌, refl, false, not, List, [], ◌∷◌, none, select}
use codestra_middleware.Realtime.{
  ScreenPop, identity, empty_buffer, publish, publish_all, append_bounded, is_wanted, replay,
}
use codestra_middleware.Realtime.Log.{has, firsts, last}
use codestra_middleware.Realtime.Replays.{buffer_refines_log}

abbrev pop : ℕ → ScreenPop
pop sequence = record {
  sequence = sequence;
  uniqueid = "call";
  assigned_user_id = "agent";
  business_unit = "TL";
  campaign = "TL-GENERAL";
  masked_customer_reference = "***1";
  company = none;
  lead_id = none;
  customer_id = none;
  language = "en";
  ivr_intent = none;
  appointment = false;
  compact_ai_summary = none;
  high_priority_alerts = [];
}

-- Out of order, with a repetition of an event that the buffer no longer holds.
abbrev published : List ScreenPop
published = pop 1 ∷ pop 3 ∷ pop 2 ∷ pop 1 ∷ pop 4 ∷ []

published_replays : replay "call" 1 (publish_all published (empty_buffer 2)) ≡ pop 2 ∷ pop 4 ∷ []
unfolding replay publish_all publish append_bounded
published_replays = refl

buffer_refines_log_example :
    ((uniqueid : String) (last_sequence : ℕ)
      → replay uniqueid last_sequence (publish_all published (empty_buffer 2))
        ≡ select (is_wanted uniqueid last_sequence) (last 2 (firsts published)))
    × ((e : ScreenPop)
        → (publish e (publish_all published (empty_buffer 2))).0 ≡ not (has (identity e) published))
buffer_refines_log_example = buffer_refines_log 2 published
