-- ===== src/Realtime/Replays.antt =====
-- The replay buffer (app/core/realtime.py) against its specification, over any publications.
use codestra_middleware.Base.{
  ℕ, ◌-◌, String, ◌≡◌, refl, ap, sym, subst, ◌∙◌, true, not, List, [], ◌∷◌, ◌++◌, append-nil,
  append_assoc, ◌==◌, string_eq, nat_eq, pair_eq, eq-of_==, select, contains, arith, Bool-cases,
  inl, inr,
}
use codestra_middleware.Realtime.{
  ScreenPop, Identity, identity, ReplayBuffer, empty_buffer, publish, publish_all, is_wanted,
  replay,
}
use codestra_middleware.Realtime.Log.{
  has, firsts, last, drop_empty, any-append, firsts-append, append_bounded-last,
}

-- The buffer stands for a log: it holds the last of its first events, and knows every identity.
pub record Represents (maximum : ℕ) (log : List ScreenPop) (b : ReplayBuffer) : Type 0 where
  pub bound : b.maximum ≡ maximum
  pub held : b.events ≡ last maximum (firsts log)
  pub known : (i : Identity) → contains i b.seen ≡ has i log

has-known :
    (i : Identity) (e : ScreenPop) (log : List ScreenPop)
    → has (identity e) log ≡ true
    → has i log ≡ has i (log ++ (e ∷ []))
has-known i e log h =
    rw (any-append (λ x. i == identity x) log (e ∷ [])) (elim (Bool-cases (i == identity e)) [
      | inl same ↦
          rw (same, subst (λ k. has k log ≡ true) (sym (eq-of_== i (identity e) same)) h) refl
      | inr other ↦ rw other (ground arith)
    ])

publish-Represents :
    (maximum : ℕ) (log : List ScreenPop) (e : ScreenPop) (b : ReplayBuffer)
    → Represents maximum log b
    → Represents maximum (log ++ (e ∷ [])) (publish e b).1
unfolding publish
publish-Represents maximum log e b r = elim (Bool-cases (has (identity e) log)) [
  | inl old ↦
      rw (r.known (identity e), old)
        (record {
          bound = r.bound;
          held = rw (firsts-append log e, old) r.held;
          known = λ i. r.known i ∙ has-known i e log old;
        })
  | inr new ↦
      rw (r.known (identity e), new)
        (record {
          bound = r.bound;
          held =
              rw (firsts-append log e, new, r.held, r.bound)
                (append_bounded-last maximum (firsts log) e);
          known =
              λ i. rw (any-append (λ x. i == identity x) log (e ∷ []), r.known i) (ground arith);
        })
]

publish_all-Represents :
    (maximum : ℕ) (log events : List ScreenPop) (b : ReplayBuffer)
    → Represents maximum log b
    → Represents maximum (log ++ events) (publish_all events b)
unfolding publish_all
publish_all-Represents maximum log [] b r = rw (append-nil log) r
publish_all-Represents maximum log (e ∷ events) b r =
    subst (λ l. Represents maximum l (publish_all events (publish e b).1))
      (append_assoc log (e ∷ []) events)
      (publish_all-Represents maximum (log ++ (e ∷ [])) events (publish e b).1
        (publish-Represents maximum log e b r))

-- After any publications, of which some repeat others or come late, the buffer behaves as the log of
-- all of them does: a replay answers with the wanted events among the last `maximum` distinct ones, in
-- the order in which they first came, and the next publication is accepted exactly when no event of its
-- call and sequence number was ever published, whether or not the buffer still holds it.
pub buffer_refines_log :
    (maximum : ℕ) (events : List ScreenPop)
    → ((uniqueid : String) (last_sequence : ℕ)
        → replay uniqueid last_sequence (publish_all events (empty_buffer maximum))
          ≡ select (is_wanted uniqueid last_sequence) (last maximum (firsts events)))
      × ((e : ScreenPop)
          → (publish e (publish_all events (empty_buffer maximum))).0
            ≡ not (has (identity e) events))
unfolding replay publish firsts
buffer_refines_log maximum events =
    let r =
      publish_all-Represents maximum [] events (empty_buffer maximum)
        (record { bound = refl; held = sym (drop_empty (0 - maximum)); known = λ i. refl }) in
    (
      λ u s. ap (select (is_wanted u s)) r.held,
      λ e. rw (r.known (identity e)) (elim (Bool-cases (has (identity e) events)) [
        | inl old ↦ rw old refl
        | inr new ↦ rw new refl
      ]),
    )
