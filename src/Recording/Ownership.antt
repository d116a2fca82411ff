-- ===== src/Recording/Ownership.antt =====
-- Which steps of the recording service (app/recording/service.py) keep every object version with one
-- recording.

use codestra_middleware.Base.{
  ℕ, ◌≡◌, refl, sym, ◌∙◌, subst, true, false, not, ◌&&◌, ◌||◌, List, [], ◌∷◌, ◌++◌, Option, none,
  some, String, ok, err, or_raise, pair_eq, Dict, All, lookup, insert, lookup-insert_self,
  string_eq, ◌==◌, Bool-cases, inl, inr,
}
use codestra_middleware.Raised.{Raised, Outcome}
use codestra_middleware.Recording.{uploaded, Recording, is_linked, is_missing}
use codestra_middleware.Recording.Service.{
  Service, Ack, ObjectHead, Reservation, transition, get, content_types, add_recording, reserve,
  reserve_again, fresh_recording,
}
use codestra_middleware.Recording.Completion.{
  Completion, Pending, is_owned_by_other, mismatches, verify, retention_until, with_pending,
  check_object, begin_found, mismatched_completion, can_complete, is_null, begin_complete,
  begin_got,
}
use codestra_middleware.Recording.Linking.{
  link_got, failure_got, failure_again, Acknowledgement, link_found, link, failure_of, failure,
  same_keys, required_acknowledgement, is_bound, same_instant,
}
use codestra_middleware.Text.{is_empty}
use codestra_middleware.Recording.Steps.{
  System, empty_system, awaited, Step, reserves, begins, links, fails, Reaches, Reaches-keeps,
}
use codestra_middleware.Recording.Versions.{
  Recordings, HasVersion, IsOwned, Safe, write-IsOwned, rewrite-IsOwned, verified-IsOwned,
}

module _ (uid : String) (recs : Recordings) (versions : Dict String String) (ps : List Pending)
    (k : Recording) (known : is_missing k.object_version_id ≡ false) where
  with_pending-IsOwned :
      (m : Outcome (Option ℕ))
      → IsOwned (insert uid k recs) versions ps
      → IsOwned (insert uid k recs) versions (awaited (with_pending uid m) ps)
  with_pending-IsOwned (err e) p = p
  with_pending-IsOwned (ok until) p = record {
    owned = p.owned;
    linked = p.linked;
    held = ((k, lookup-insert_self uid k recs, known), p.held);
  }

module _ (now : ℕ) (uid : String) (ps : List Pending) where
  verify-Safe :
      (version : String) (r : Recording) (s : Service)
      → lookup uid s.recordings ≡ some r
      → is_owned_by_other uid (lookup version s.object_versions) ≡ false
      → Safe ps s
      → Safe (awaited (verify now uid version r s).0 ps) (verify now uid version r s).1
  unfolding verify transition
  verify-Safe version r s found free p =
      with_pending-IsOwned uid s.recordings (insert version uid s.object_versions) ps _ refl
        (retention_until now
          (record r { object_version_id = some version; verified_at = some now }))
        (verified-IsOwned now uid version r s ps found free p)

  check_object-Safe :
      (head : Option ObjectHead) (r : Recording) (s : Service)
      → lookup uid s.recordings ≡ some r
      → Safe ps s
      → Safe (awaited (check_object now uid head r s).0 ps) (check_object now uid head r s).1
  unfolding check_object transition
  check_object-Safe none r s found p = rewrite-IsOwned uid r _ s ps found refl p (λ e. absurd (cc))
  check_object-Safe (some head) r s found p =
      elim (Bool-cases (is_owned_by_other uid (lookup head.version_id s.object_versions))) [
        | inl taken ↦ rw taken (rewrite-IsOwned uid r _ s ps found refl p (λ e. absurd (cc)))
        | inr free ↦ rw free (elim (Bool-cases (is_null (mismatches uid head r))) [
          | inl fits ↦ rw fits (verify-Safe head.version_id r s found free p)
          | inr differs ↦ rw differs (rewrite-IsOwned uid r _ s ps found refl p (λ e. absurd (cc)))
        ])
      ]

  begin_found-Safe :
      (c : Completion) (head : Option ObjectHead) (r : Recording) (s : Service)
      → lookup uid s.recordings ≡ some r
      → Safe ps s
      → Safe (awaited (begin_found now uid c head r s).0 ps) (begin_found now uid c head r s).1
  unfolding begin_found transition
  begin_found-Safe c head r s found p =
      elim (Bool-cases (is_null (mismatched_completion uid c r))) [
        | inr differs ↦ rw differs (rewrite-IsOwned uid r _ s ps found refl p (λ e. absurd (cc)))
        | inl fits ↦
            rw fits (elim (Bool-cases (is_linked r.state && not (is_missing r.object_version_id))) [
              | inl done ↦ rw done p
              | inr open_state ↦ rw open_state (elim (Bool-cases (can_complete r.state)) [
                | inr closed ↦ rw closed p
                | inl can ↦ rw can (
                    check_object-Safe head _ _
                      (lookup-insert_self uid (record r { state = uploaded }) s.recordings)
                      (rewrite-IsOwned uid r _ s ps found refl p (λ e. absurd (cc))))
              ])
            ])
      ]

-- What `get` answers with is stored.
abbrev Stored : String → Service → Outcome Recording → Type 0
Stored uid s m = (r : Recording) → m ≡ ok r → lookup uid s.recordings ≡ some r

stored_in : (o : Option Recording) (e : Raised) (r : Recording) → or_raise o e ≡ ok r → o ≡ some r
stored_in none e r h = absurd (cc)
stored_in (some q) e r h = cc

get-Stored : (uid : String) (s : Service) → Stored uid s (get uid s)
unfolding get
get-Stored uid s r e = stored_in (lookup uid s.recordings) _ r e

module _ (uid : String) (ps : List Pending) where
  begin_got-Safe :
      (now : ℕ) (c : Completion) (head : Option ObjectHead) (s : Service) (m : Outcome Recording)
      → Stored uid s m
      → Safe ps s
      → Safe (awaited (begin_got now uid c head s m).0 ps) (begin_got now uid c head s m).1
  begin_got-Safe now c head s (err e) f p = p
  begin_got-Safe now c head s (ok r) f p = begin_found-Safe now uid ps c head r s (f r refl) p

  failure_of-Safe :
      (code key : String) (r : Recording) (s : Service)
      → lookup uid s.recordings ≡ some r
      → Safe ps s
      → Safe ps (failure_of uid code key r s).1
  unfolding failure_of transition
  failure_of-Safe code key r s found p =
      elim (Bool-cases (is_empty key || not (key == r.idempotency_key))) [
        | inl refused ↦ rw refused p
        | inr bound ↦ rw bound (rewrite-IsOwned uid r _ s ps found refl p (λ e. absurd (cc)))
      ]

  failure_again-Safe :
      (code key : String) (r : Recording) (s : Service) (o : Option Ack)
      → lookup uid s.recordings ≡ some r
      → Safe ps s
      → Safe ps (failure_again uid code key r s o).1
  failure_again-Safe code key r s (some known) found p = p
  failure_again-Safe code key r s none found p = failure_of-Safe code key r s found p

  failure_got-Safe :
      (code key : String) (s : Service) (m : Outcome Recording)
      → Stored uid s m
      → Safe ps s
      → Safe ps (failure_got uid code key s m).1
  failure_got-Safe code key s (err e) f p = p
  failure_got-Safe code key s (ok r) f p =
      failure_again-Safe code key r s (lookup (uid, key) s.failure_results) (f r refl) p

module _ (ps : List Pending) where
  link_found-Safe :
      (now : ℕ) (q : Pending) (reply : Outcome Acknowledgement) (r : Recording) (s : Service)
      → lookup q.recording_uid s.recordings ≡ some r
      → is_missing r.object_version_id ≡ false
      → Safe ps s
      → Safe ps (link_found now q reply r s).1
  unfolding link_found transition
  link_found-Safe now q (err e) r s found has p =
      rewrite-IsOwned q.recording_uid r _ s ps found refl p (λ e. has)
  link_found-Safe now q (ok a) r s found has p =
      elim (Bool-cases (same_keys a.keys required_acknowledgement)) [
        | inr other ↦ rw other p
        | inl canonical ↦ rw canonical (elim (Bool-cases (is_bound q.recording_uid a r)) [
          | inr unbound ↦ rw unbound p
          | inl bound ↦
              rw bound (elim (Bool-cases (same_instant a.retention_until q.retention_until)) [
                | inr differs ↦ rw differs p
                | inl agreed ↦
                    rw agreed (rewrite-IsOwned q.recording_uid r _ s ps found refl p (λ e. has))
              ])
        ])
      ]

  link_got-Safe :
      (now : ℕ) (q : Pending) (reply : Outcome Acknowledgement) (s : Service)
      (m : Outcome Recording)
      → Stored q.recording_uid s m
      → HasVersion s.recordings q
      → Safe ps s
      → Safe ps (link_got now q reply s m).1
  link_got-Safe now q reply s (err e) f h p = p
  link_got-Safe now q reply s (ok r) f h p =
      let is : h.0 ≡ r = cc (h.1, f r refl) in
      link_found-Safe now q reply r s (f r refl)
        (subst (λ x. is_missing x.object_version_id ≡ false) is h.2) p

  module _ (storage : String → String → String → ℕ → String × ℕ) (uid opaque : String)
      (m : Reservation) (s : Service) (fresh : lookup uid s.recordings ≡ none) (p : Safe ps s) where
    add_recording-Safe : (o : Option String) → Safe ps (add_recording storage uid opaque m s o).1
    unfolding add_recording transition
    add_recording-Safe none = p
    add_recording-Safe (some t) =
        let r = fresh_recording uid opaque t m in
        rewrite-IsOwned uid r _ (record s { recordings = insert uid r s.recordings }) ps
          (lookup-insert_self uid r s.recordings) refl
          (write-IsOwned uid r s.recordings s.object_versions s.object_versions ps p (λ v w e. e)
            (λ v e. absurd (cc)) (λ e. absurd (cc)) (λ x e f. absurd (cc)))
          (λ e. absurd (cc))

    reserve_again-Safe : (o : Option String) → Safe ps (reserve_again storage uid opaque m s o).1
    reserve_again-Safe (some known) = p
    reserve_again-Safe none = add_recording-Safe (lookup m.format content_types)

All-append :
    (recs : Recordings) (before after : List Pending) (q : Pending)
    → All (HasVersion recs) (before ++ (q ∷ after))
    → HasVersion recs q × All (HasVersion recs) (before ++ after)
All-append recs [] after q h = h
All-append recs (p ∷ before) after q h =
    let rest = All-append recs before after q h.1 in (rest.0, (h.0, rest.1))

abbrev IsSafe : System → Type 0
IsSafe s = Safe s.waiting s.service

Step-IsSafe : (s t : System) → IsSafe s → Step s t → IsSafe t
unfolding begin_complete link failure reserve
Step-IsSafe s t p (reserves storage uid opaque m fresh) =
    reserve_again-Safe s.waiting storage uid opaque m s.service fresh p
      (lookup (m.environment, m.idempotency_key) s.service.by_idempotency)
Step-IsSafe s t p (begins now uid c head) =
    begin_got-Safe uid s.waiting now c head s.service (get uid s.service) (get-Stored uid s.service)
      p
Step-IsSafe s t p (links now q reply before after e) =
    let h =
      All-append s.service.recordings before after q
        (subst (λ ps. All (HasVersion s.service.recordings) ps) e p.held) in
    link_got-Safe (before ++ after) now q reply s.service (get q.recording_uid s.service)
      (get-Stored q.recording_uid s.service) h.0
      (record { owned = p.owned; linked = p.linked; held = h.1 })
Step-IsSafe s t p (fails uid code key) =
    failure_got-Safe uid s.waiting code key s.service (get uid s.service) (get-Stored uid s.service)
      p

-- From an empty service, whatever is called, in whatever order the calls interleave and whatever the
-- storage and Odoo answer: no two recordings ever have the same object version, and a recording that is
-- linked in Odoo has one. New recordings have fresh identifiers.
pub versions_unshared :
    (s : System)
    → Reaches empty_system s
    → ((a b : String) (r q : Recording) (v : String)
        → lookup a s.service.recordings ≡ some r
        → lookup b s.service.recordings ≡ some q
        → r.object_version_id ≡ some v
        → q.object_version_id ≡ some v
        → a ≡ b)
      × ((a : String) (r : Recording)
          → lookup a s.service.recordings ≡ some r
          → is_linked r.state ≡ true
          → is_missing r.object_version_id ≡ false)
unfolding lookup
versions_unshared s reached =
    let none_yet : IsSafe empty_system = record {
      owned = λ id r v e f. absurd (cc);
      linked = λ id r e f. absurd (cc);
      held = tt;
    } in
    let p = Reaches-keeps IsSafe Step-IsSafe none_yet reached in
    (
      λ a b r q v e f g h.
          let is : some a ≡ some b = sym (p.owned a r v e g) ∙ p.owned b q v f h in cc is,
      p.linked,
    )
