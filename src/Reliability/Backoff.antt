-- ===== src/Reliability/Backoff.antt =====
-- Retries of an outbox item: `RetryPolicy` and `OutboxItem` of app/core/reliability.py.
use native.Mathlib.Nat.{mul_assoc, mul_comm}
use native.Mathlib.Omega.{pow_step}
use codestra_middleware.Base.{
  ℕ, zero, suc, ◌+◌, ◌*◌, ◌^◌, ◌≤◌, min, ◌≡◌, ◌↔◌, ◌≢◌, refl, sym, ◌∙◌, ap, subst, Result-cases,
  true, false, Option, none, some, List, [], ◌∷◌, String, ok, err, string_eq, ◌==◌, leb, arith,
  Bool-cases, inl, inr, eq-of_==,
}
use codestra_middleware.Raised.{Outcome}
use codestra_middleware.Clock.{seconds}
use codestra_middleware.Reliability.{
  Texts, RetryPolicy, delay, OutboxItem, fail, is_stale, recover_at, recover, replay,
}

min_double : (a b : ℕ) → min a (b * 2) ≡ min a (min a b * 2)
min_double a b = omega arith

delay-suc :
    (p : RetryPolicy) (n : ℕ) → delay p (suc n) ≡ ok (min p.max_seconds (p.base_seconds * 2 ^ n))
unfolding delay
delay-suc p n = ground arith

delay-add :
    (p : RetryPolicy) (n : ℕ) → delay p (n + 1) ≡ ok (min p.max_seconds (p.base_seconds * 2 ^ n))
delay-add p n = ap (delay p) {x = n + 1} {y = suc n} (omega arith) ∙ delay-suc p n

pow-suc : (base n : ℕ) → base * 2 ^ suc n ≡ (base * 2 ^ n) * 2
pow-suc base n =
    ap (λ x. base * x) (pow_step 2 n ∙ mul_comm 2 (2 ^ n)) ∙ sym (mul_assoc base (2 ^ n) 2)

delay-zero : (p : RetryPolicy) (d : ℕ) → delay p zero ≢ ok d
unfolding delay
delay-zero p d e = cc e

ok-injective : {d e : ℕ} → ◌≡◌ {A = Outcome ℕ} (ok d) (ok e) → d ≡ e
ok-injective h = cc h

-- The first delay is the base, and each further one is twice the one before, as long as the cap allows;
-- no delay is longer than the cap.
pub delay_doubles :
    (p : RetryPolicy) (attempts d : ℕ)
    → delay p attempts ≡ ok d
    → (d ≤ p.max_seconds)
      × (delay p 1 ≡ ok (min p.max_seconds p.base_seconds))
      × (delay p (attempts + 1) ≡ ok (min p.max_seconds (d * 2)))
delay_doubles p zero d e = absurd (delay-zero p d e)
delay_doubles p (suc n) d e =
    let value : min p.max_seconds (p.base_seconds * 2 ^ n) ≡ d =
      ok-injective (sym (delay-suc p n) ∙ e) in
    let doubled = pow-suc p.base_seconds n in
    (
      omega (arith, value),
      delay-suc p 0 ∙ ap (λ x. ok (min p.max_seconds x)) (omega arith),
      ap (delay p) {x = suc n + 1} {y = suc (suc n)} (omega arith)
          ∙ delay-suc p (suc n)
          ∙ ap ok (omega (arith, value, doubled)),
    )

-- What happens to an item; the worker's own changes of its state are not among these.
pub data ItemOp : Type 0 where
  op_fail : (error : String) (now : ℕ) → ItemOp
  op_recover : (now lock_timeout_seconds : ℕ) → ItemOp
  op_replay : ItemOp

-- An item is a dead letter if and only if its attempts are used up.
abbrev pub IsCounted : RetryPolicy → OutboxItem → Type 0
IsCounted p item = (item.status ≡ "dead_letter") ↔ (p.max_attempts ≤ item.attempts)

abbrev pub keep_item : OutboxItem → Outcome OutboxItem → OutboxItem
keep_item item (ok new) = new
keep_item item (err e) = item

-- How many of the calls record a failure.
abbrev pub count_failures : List ItemOp → ℕ
count_failures [] = 0
count_failures (op_fail error now ∷ ops) = count_failures ops + 1
count_failures (op_recover now lock_timeout_seconds ∷ ops) = count_failures ops
count_failures (op_replay ∷ ops) = count_failures ops

count_failures-more :
    (op : ItemOp) (ops : List ItemOp)
    → count_failures (op ∷ ops) ≡ count_failures (op ∷ []) + count_failures ops
count_failures-more (op_fail error now) ops = omega arith
count_failures-more (op_recover now lock) ops = omega arith
count_failures-more op_replay ops = omega arith

module _ (t : Texts) (p : RetryPolicy) where
  unfoldable pub apply : ItemOp → OutboxItem → OutboxItem
  apply (op_fail error now) item = keep_item item (fail t error p now item)
  apply (op_recover now lock_timeout_seconds) item =
      keep_item item (recover now lock_timeout_seconds item)
  apply op_replay item = keep_item item (replay item)

  abbrev pub run : List ItemOp → OutboxItem → OutboxItem
  run [] item = item
  run (op ∷ ops) item = run ops (apply op item)

  -- A failure is always recorded: it counts one more attempt; the item is a dead letter if and only
  -- if the attempts are used up, and otherwise waits, from now on, for at most the longest delay.
  pub fail_lem :
      (error : String) (now : ℕ) (item : OutboxItem)
      → (new : OutboxItem) × (fail t error p now item ≡ ok new)
        × (new.attempts ≡ item.attempts + 1)
        × (new.last_error ≡ some (t.scrub error))
        × IsCounted p new
        × (new.status ≢ "dead_letter"
            → (at : ℕ) × (new.status ≡ "retry")
              × (new.next_attempt_at ≡ some at)
              × (now ≤ at)
              × (at ≤ now + seconds p.max_seconds))
  unfolding fail
  fail_lem error now item = elim (Bool-cases (leb p.max_attempts (item.attempts + 1))) [
    | inl out ↦
        rw out (_, refl, refl, refl, (λ _. ground arith, λ _. refl), λ alive. absurd (alive refl))
    | inr left ↦
        rw (left, delay-add p item.attempts)
          (
            _,
            refl,
            refl,
            refl,
            (λ dead. cc dead, λ many. ground arith),
            λ _. (_, refl, refl, omega arith, omega arith),
          )
  ]

  fail-IsCounted :
      (error : String) (now : ℕ) (item : OutboxItem)
      → IsCounted p (keep_item item (fail t error p now item))
  fail-IsCounted error now item =
      let (new, done, _, _, counted, _) = fail_lem error now item in
      subst (λ r. IsCounted p (keep_item item r)) (sym done) counted

  recover_at-IsCounted :
      (now lock_timeout_seconds : ℕ) (item : OutboxItem) (o : Option ℕ)
      → item.status ≢ "dead_letter"
      → IsCounted p item
      → IsCounted p (keep_item item (recover_at now lock_timeout_seconds item o))
  unfolding recover_at
  recover_at-IsCounted now lock_timeout_seconds item none alive i = i
  recover_at-IsCounted now lock_timeout_seconds item (some at) alive i =
      elim (Result-cases (is_stale now lock_timeout_seconds at)) [
        | inl (true, e) ↦ rw e ((λ dead. cc dead), λ many. absurd (alive (i.1 many)))
        | inl (false, e) ↦ rw e i
        | inr (x, e) ↦ rw e i
      ]

  recover-IsCounted :
      (now lock_timeout_seconds : ℕ) (item : OutboxItem)
      → IsCounted p item
      → IsCounted p (keep_item item (recover now lock_timeout_seconds item))
  unfolding recover
  recover-IsCounted now lock_timeout_seconds item i =
      elim (Bool-cases (item.status == "processing")) [
        | inl busy ↦ rw busy (
            recover_at-IsCounted now lock_timeout_seconds item item.next_attempt_at
              (λ dead. cc (sym (eq-of_== item.status "processing" busy) ∙ dead)) i)
        | inr idle ↦ rw idle i
      ]

  replay-IsCounted :
      (item : OutboxItem)
      → 1 ≤ p.max_attempts
      → IsCounted p item
      → IsCounted p (keep_item item (replay item))
  unfolding replay
  replay-IsCounted item some_tries i = elim (Bool-cases (item.status == "dead_letter")) [
    | inl dead ↦ rw dead ((λ e. cc e), λ many. ground (arith, many))
    | inr alive ↦ rw alive i
  ]

  apply-IsCounted :
      (op : ItemOp) (item : OutboxItem)
      → 1 ≤ p.max_attempts
      → IsCounted p item
      → IsCounted p (apply op item)
  unfolding apply
  apply-IsCounted (op_fail error now) item one i = fail-IsCounted error now item
  apply-IsCounted (op_recover now lock) item one i = recover-IsCounted now lock item i
  apply-IsCounted op_replay item one i = replay-IsCounted item one i

  recover_at-attempts :
      (now lock_timeout_seconds : ℕ) (item : OutboxItem) (o : Option ℕ)
      → (keep_item item (recover_at now lock_timeout_seconds item o)).attempts ≡ item.attempts
  unfolding recover_at
  recover_at-attempts now lock_timeout_seconds item none = refl
  recover_at-attempts now lock_timeout_seconds item (some at) =
      elim (Result-cases (is_stale now lock_timeout_seconds at)) [
        | inl (true, e) ↦ rw e refl
        | inl (false, e) ↦ rw e refl
        | inr (x, e) ↦ rw e refl
      ]

  -- One call counts one attempt more at most, and only if it is a failure.
  apply-attempts :
      (op : ItemOp) (item : OutboxItem)
      → (apply op item).attempts ≤ item.attempts + count_failures (op ∷ [])
  unfolding apply recover replay
  apply-attempts (op_fail error now) item =
      let (new, done, counts, _, _, _) = fail_lem error now item in rw done (omega (arith, counts))
  apply-attempts (op_recover now lock) item = elim (Bool-cases (item.status == "processing")) [
    | inl busy ↦ rw busy (omega (arith, recover_at-attempts now lock item item.next_attempt_at))
    | inr idle ↦ rw idle (omega arith)
  ]
  apply-attempts op_replay item = elim (Bool-cases (item.status == "dead_letter")) [
    | inl dead ↦ rw dead (omega arith)
    | inr alive ↦ rw alive (omega arith)
  ]

  -- Whatever fails, is recovered or is replayed, and in whatever order: where a policy allows one
  -- attempt at least, an item that is a dead letter if and only if its attempts are used up, as a new
  -- item is, stays so. Its attempts grow by no more than the number of failures, so that an item
  -- without attempts, a new one or one that was just replayed, becomes a dead letter only after
  -- `max_attempts` failures.
  pub run-IsCounted :
      (ops : List ItemOp) (item : OutboxItem)
      → 1 ≤ p.max_attempts
      → IsCounted p item
      → IsCounted p (run ops item)
        × ((run ops item).attempts ≤ item.attempts + count_failures ops)
        × (item.attempts ≡ 0
            → (run ops item).status ≡ "dead_letter"
            → p.max_attempts ≤ count_failures ops)
  run-IsCounted [] item one i = (i, omega arith, λ new dead. omega (arith, new, i.0 dead))
  run-IsCounted (op ∷ ops) item one i =
      let (counted, grows, _) =
        run-IsCounted ops (apply op item) one (apply-IsCounted op item one i) in
      let total = count_failures-more op ops in
      let all_grow : (run ops (apply op item)).attempts
          ≤ item.attempts + count_failures (op ∷ ops) =
        omega (arith, grows, apply-attempts op item, total) in
      (counted, all_grow, λ new dead. omega (arith, new, counted.0 dead, all_grow))
