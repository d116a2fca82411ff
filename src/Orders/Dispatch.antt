-- ===== src/Orders/Dispatch.antt =====
-- What may be dispatched: `validate_for_dispatch` of app/order_orchestration.py.
use codestra_middleware.Base.{
  ℕ, ◌<◌, ◌≡◌, ◌↔◌, refl, Bool, true, false, not, ◌&&◌, List, [], ◌∷◌, String, ok, any, all,
  contains, string_eq, ◌==◌, ==_iff, ==_refl, eq-of_==, leb, arith, raise_if-elim, contains-of_all,
  Bool-cases, inl, inr,
}
use codestra_middleware.Orders.{
  allowed_workflows, allowed_actions, blocked_actions, OrderEnvelope, Content, content, Settings,
  is_synthetic, validate_for_dispatch,
}

is_false : (b : Bool) → not b ≡ true → b ≡ false
is_false b e = ground arith

is_true : (b : Bool) → not b ≡ false → b ≡ true
is_true b e = ground arith

abbrev is_harmless : String → Bool
is_harmless action = not (contains action blocked_actions)

-- No action is both allowed and blocked.
harmless-of_allowed :
    (action : String) → contains action allowed_actions ≡ true → is_harmless action ≡ true
harmless-of_allowed action e = contains-of_all is_harmless action allowed_actions refl e

any-of_all {ℓ} :
    {A : Type ℓ} (p q : A → Bool) (xs : List A)
    → ((x : A) → p x ≡ true → q x ≡ false)
    → all p xs ≡ true
    → any q xs ≡ false
any-of_all p q [] k e = refl
any-of_all p q (x ∷ xs) k e = ground (arith, k x, any-of_all p q xs k)

any_blocked-of_allowed :
    (actions : List String)
    → all (λ action. contains action allowed_actions) actions ≡ true
    → any (λ action. contains action blocked_actions) actions ≡ false
any_blocked-of_allowed actions e =
    any-of_all (λ action. contains action allowed_actions)
      (λ action. contains action blocked_actions) actions
      (λ x allowed. is_false (contains x blocked_actions) (harmless-of_allowed x allowed)) e

-- An order that may go to n8n.
pub record Dispatchable (hash : Content → String) (settings : Settings) (now : ℕ)
    (o : OrderEnvelope) : Type 0 where
  pub alive : now < o.expires_at
  pub known_workflow : contains o.workflow_code allowed_workflows ≡ true
  pub allowed : all (λ action. contains action allowed_actions) o.requested_actions ≡ true
  pub approved : o.approval.required ≡ true → o.approval.status ≡ "approved"
  pub untouched : o.approval.content_hash ≡ hash (content o)
  pub enabled :
      is_synthetic o ≡ false
      → (settings.order_orchestration_enabled ≡ true) × (settings.n8n_order_dispatch_enabled ≡ true)

module _ (hash : Content → String) (settings : Settings) (now : ℕ) (o : OrderEnvelope) where
  approved-of_guard :
      (required : Bool) (status : String)
      → required && not (status == "approved") ≡ false
      → required ≡ true
      → status ≡ "approved"
  approved-of_guard required status e r = ground (arith, ==_iff status "approved")

  guard-of_approved :
      (required : Bool) (status : String)
      → (required ≡ true → status ≡ "approved")
      → required && not (status == "approved") ≡ false
  guard-of_approved true status k = rw (k refl) refl
  guard-of_approved false status k = refl

  Dispatchable-of_ok :
      validate_for_dispatch hash settings now o ≡ ok tt → Dispatchable hash settings now o
  unfolding validate_for_dispatch
  Dispatchable-of_ok e = raise_if-elim (leb o.expires_at now) _ _ e λ alive e₁.
      raise_if-elim (not (contains o.workflow_code allowed_workflows)) _ _ e₁ λ workflow e₂.
        raise_if-elim (any (λ action. contains action blocked_actions) o.requested_actions) _ _ e₂
          λ harmless e₃.
            raise_if-elim
              (not (all (λ action. contains action allowed_actions) o.requested_actions)) _ _ e₃
              λ allowed e₄.
                raise_if-elim (o.approval.required && not (o.approval.status == "approved")) _ _ e₄
                  λ approved e₅.
                    raise_if-elim (not (o.approval.content_hash == hash (content o))) _ _ e₅
                      λ untouched e₆. record {
                        alive = ground arith;
                        known_workflow = is_true _ workflow;
                        allowed = is_true _ allowed;
                        approved = approved-of_guard _ _ approved;
                        untouched = eq-of_== _ _ (is_true _ untouched);
                        enabled = λ real. ground arith;
                      }

  ok-of_Dispatchable :
      Dispatchable hash settings now o → validate_for_dispatch hash settings now o ≡ ok tt
  unfolding validate_for_dispatch
  ok-of_Dispatchable d =
      let alive : leb o.expires_at now ≡ false = ground (arith, d.alive) in
      let same : (o.approval.content_hash == hash (content o)) ≡ true =
        rw d.untouched (==_refl (hash (content o))) in
      rw
        (
          alive,
          d.known_workflow,
          any_blocked-of_allowed o.requested_actions d.allowed,
          d.allowed,
          guard-of_approved o.approval.required o.approval.status d.approved,
          same,
        )
        (elim (Bool-cases (is_synthetic o)) [
          | inl synthetic ↦ ground arith
          | inr real ↦ ground (arith, d.enabled real)
        ])

  -- An order passes the check before dispatch if and only if it has not expired, its workflow and
  -- all its actions are on the allowlists, it is approved if it has to be, its approval is for
  -- exactly this content, and, unless it is synthetic, both switches are on.
  pub validate_for_dispatch_iff :
      (validate_for_dispatch hash settings now o ≡ ok tt) ↔ Dispatchable hash settings now o
  validate_for_dispatch_iff = (Dispatchable-of_ok, ok-of_Dispatchable)
