-- ===== src/Recording/Versions.antt =====
-- Object versions (app/recording/service.py): to which recording a stored object belongs, over any steps.

use codestra_middleware.Base.{
  ℕ, ◌≡◌, refl, sym, ◌∙◌, ap, subst, true, false, List, [], ◌∷◌, Option, none, some, String, Dict,
  All, lookup, insert, lookup-insert, lookup-insert_self, eq-of_==, string_eq, ◌==◌, arith,
  Bool-cases, inl, inr,
}
use codestra_middleware.Recording.{server_verified, Recording, is_linked, is_missing}
use codestra_middleware.Recording.Service.{Service}
use codestra_middleware.Recording.Completion.{Pending, is_owned_by_other}

abbrev pub Recordings : Type 0
Recordings = Dict String Recording

-- The recording is there, and its object is known.
abbrev pub HasVersion : Recordings → Pending → Type 0
HasVersion recs p =
    (r : Recording) × (lookup p.recording_uid recs ≡ some r)
    × (is_missing r.object_version_id ≡ false)

-- Every version of a recording is its own, a linked recording has one, and so has every recording whose
-- completion waits for Odoo.
pub record IsOwned (recs : Recordings) (versions : Dict String String) (ps : List Pending)
    : Type 0 where
  pub owned :
      (uid : String) (r : Recording) (v : String)
      → lookup uid recs ≡ some r
      → r.object_version_id ≡ some v
      → lookup v versions ≡ some uid
  pub linked :
      (uid : String) (r : Recording)
      → lookup uid recs ≡ some r
      → is_linked r.state ≡ true
      → is_missing r.object_version_id ≡ false
  pub held : All (HasVersion recs) ps

module _ (uid : String) (k : Recording) (recs : Recordings) where
  kept-HasVersion :
      (ps : List Pending)
      → ((r : Recording)
          → lookup uid recs ≡ some r
          → is_missing r.object_version_id ≡ false
          → is_missing k.object_version_id ≡ false)
      → All (HasVersion recs) ps
      → All (HasVersion (insert uid k recs)) ps
  kept-HasVersion [] kept h = tt
  kept-HasVersion (p ∷ ps) kept h = (
    elim (Bool-cases (uid == p.recording_uid)) [
      | inl same ↦ (
        k,
        rw (lookup-insert, same) refl,
        kept h.0.0
            (subst (λ x. lookup x recs ≡ some h.0.0) (sym (eq-of_== uid p.recording_uid same))
              h.0.1)
            h.0.2,
      )
      | inr other ↦ (h.0.0, rw (lookup-insert, other) h.0.1, h.0.2)
    ],
    kept-HasVersion ps kept h.1,
  )

  pub write-IsOwned :
      (versions versions' : Dict String String) (ps : List Pending)
      → IsOwned recs versions ps
      → ((v w : String) → lookup v versions ≡ some w → lookup v versions' ≡ some w)
      → ((v : String) → k.object_version_id ≡ some v → lookup v versions' ≡ some uid)
      → (is_linked k.state ≡ true → is_missing k.object_version_id ≡ false)
      → ((r : Recording)
          → lookup uid recs ≡ some r
          → is_missing r.object_version_id ≡ false
          → is_missing k.object_version_id ≡ false)
      → IsOwned (insert uid k recs) versions' ps
  write-IsOwned versions versions' ps p grown mine linked kept = record {
    owned = λ id r v e f. elim (Bool-cases (uid == id)) [
      | inl same ↦
          let is : k ≡ r = cc (rw (lookup-insert, same) at e) in
          mine v (ap (λ x. x.object_version_id) is ∙ f) ∙ ap some (eq-of_== uid id same)
      | inr other ↦ grown v id (p.owned id r v (rw (lookup-insert, other) at e) f)
    ];
    linked = λ id r e f. elim (Bool-cases (uid == id)) [
      | inl same ↦
          let is : k ≡ r = cc (rw (lookup-insert, same) at e) in
          subst (λ x. is_missing x.object_version_id ≡ false) is
            (linked (subst (λ x. is_linked x.state ≡ true) (sym is) f))
      | inr other ↦ p.linked id r (rw (lookup-insert, other) at e) f
    ];
    held = kept-HasVersion ps kept p.held;
  }

abbrev pub Safe : List Pending → Service → Type 0
Safe ps s = IsOwned s.recordings s.object_versions ps

-- A change that keeps the version.
module _ (uid : String) (r k : Recording) (s : Service) (ps : List Pending)
    (found : lookup uid s.recordings ≡ some r) (version : k.object_version_id ≡ r.object_version_id)
    (p : Safe ps s)
    (linked : is_linked k.state ≡ true → is_missing k.object_version_id ≡ false) where
  pub rewrite-IsOwned : IsOwned (insert uid k s.recordings) s.object_versions ps
  rewrite-IsOwned =
      write-IsOwned uid k s.recordings s.object_versions s.object_versions ps p (λ v w e. e)
        (λ v e. p.owned uid r v found (sym version ∙ e)) linked
        λ x e f.
          let is : x ≡ r = cc in
          ap is_missing version ∙ subst (λ y. is_missing y.object_version_id ≡ false) is f

owner :
    (uid w : String) (o : Option String) → is_owned_by_other uid o ≡ false → o ≡ some w → uid ≡ w
owner uid w none free e = absurd (cc)
owner uid w (some x) free e = let is : x ≡ w = cc in sym (eq-of_== x uid (ground arith)) ∙ is

-- A version that no other recording owns is recorded for this one.
pub verified-IsOwned :
    (now : ℕ) (uid version : String) (r : Recording) (s : Service) (ps : List Pending)
    → lookup uid s.recordings ≡ some r
    → is_owned_by_other uid (lookup version s.object_versions) ≡ false
    → Safe ps s
    → IsOwned
        (insert uid
          (record r {
            object_version_id = some version;
            verified_at = some now;
            state = server_verified;
          })
          s.recordings)
        (insert version uid s.object_versions)
        ps
verified-IsOwned now uid version r s ps found free p =
    write-IsOwned uid _ s.recordings s.object_versions (insert version uid s.object_versions) ps p
      (λ v w e. elim (Bool-cases (version == v)) [
        | inl same ↦
            rw (lookup-insert, same)
              (ap some (
                owner uid w (lookup version s.object_versions) free (
                  subst (λ x. lookup x s.object_versions ≡ some w) (sym (eq-of_== version v same))
                    e)))
        | inr other ↦ rw (lookup-insert, other) e
      ])
      (λ v e.
        let is : version ≡ v = cc in
        subst (λ x. lookup x (insert version uid s.object_versions) ≡ some uid) is
          (lookup-insert_self version uid s.object_versions))
      (λ e. refl) (λ x e f. refl)
