-- ===== src/Reliability/Tests.antt =====
-- The theorems on app/core/reliability.py at a small policy, and runs of its operations.
use codestra_middleware.Base.{ℕ, ◌+◌, ◌≤◌, ◌≡◌, refl, none, List, [], ◌∷◌, ok, string_eq, arith}
use codestra_middleware.Json.{object, end}
use codestra_middleware.Reliability.{Texts, RetryPolicy, delay, OutboxItem, Entries}
use codestra_middleware.Reliability.Backoff.{
  ItemOp, op_fail, op_recover, op_replay, IsCounted, count_failures, run, run-IsCounted,
}
use codestra_middleware.Reliability.Ledger.{Request, submit}

abbrev texts : Texts
texts = record { scrub = λ s. s; sha256 = λ s. s; canonical = λ v. "v" }

abbrev policy : RetryPolicy
policy = record { max_attempts = 2; base_seconds = 5; max_seconds = 15 }

delay_runs : delay policy 2 ≡ ok 10
unfolding delay
delay_runs = refl

abbrev item : OutboxItem
item = record {
  event_id = "e";
  topic = "t";
  payload = object end;
  correlation_id = "c";
  status = "pending";
  attempts = 0;
  next_attempt_at = none;
  last_error = none;
}

item-IsCounted : IsCounted policy item
item-IsCounted = (λ e. cc e, λ many. absurd (omega (arith, many)))

abbrev ops : List ItemOp
ops =
    op_fail "down" 100
    ∷ op_recover 200 60
    ∷ op_fail "down" 300
    ∷ op_replay
    ∷ op_fail "down" 400
    ∷ []

run-IsCounted_example :
    IsCounted policy (run texts policy ops item)
    × ((run texts policy ops item).attempts ≤ 0 + count_failures ops)
    × (◌≡◌ {A = ℕ} 0 0
        → (run texts policy ops item).status ≡ "dead_letter"
        → 2 ≤ count_failures ops)
run-IsCounted_example = run-IsCounted texts policy ops item (omega arith) item-IsCounted

abbrev request : Request
request = record { scope = "orders"; raw_key = "k"; payload = object end; event_id = "e" }

abbrev entries : Entries
entries = (submit texts request []).1
