-- ===== src/Callbacks/Store.antt =====
-- What requests do to the callback tables: theorems about `mutate` of app/api/v1/callbacks.py, one
-- request after another.
use codestra_middleware.Base.{
  ℕ, ◌+◌, ◌≡◌, ◌≢◌, refl, sym, ◌∙◌, ◌⊎◌, inl, inr, true, false, some, List, [], ◌∷◌, ◌++◌, String,
  ok, arith, contains, string_eq, nat_eq, ==_iff, ==_refl, >>=-eq-ok, raise_if-eq-ok, Bool-cases,
  Option-cases, true≢false,
}
use codestra_middleware.Clock.{ZoneDatabase}
use codestra_middleware.Callbacks.Records.{
  CallbackRecord, CallbackEvent, Database, Principal, Change, Target,
}
use codestra_middleware.Callbacks.Api.{
  load, scope, find_row, set_row, has_event, CallbackView, revise, commit, mutate, event,
}
use codestra_middleware.Callbacks.Revisions.{revise-version, revise-identity}

pub id-find_row :
    (id : String) (rows : List CallbackRecord) (r : CallbackRecord)
    → find_row id rows ≡ some r
    → r.id ≡ id
unfolding find_row
id-find_row id [] r h = cc
id-find_row id (x ∷ rows) r h = ground (arith, ==_iff x.id id, id-find_row id rows r)

pub find_row-set_row_self :
    (new : CallbackRecord) (rows : List CallbackRecord) (r : CallbackRecord)
    → find_row new.id rows ≡ some r
    → find_row new.id (set_row new rows) ≡ some new
unfolding find_row set_row
find_row-set_row_self new [] r h = cc
find_row-set_row_self new (x ∷ rows) r h =
    ground (arith, ==_refl new.id, find_row-set_row_self new rows r)

pub find_row-set_row_ne :
    (j : String) (new : CallbackRecord) (rows : List CallbackRecord)
    → new.id ≢ j
    → find_row j (set_row new rows) ≡ find_row j rows
unfolding find_row set_row
find_row-set_row_ne j new [] n = refl
find_row-set_row_ne j new (x ∷ rows) n =
    ground
      (arith, ==_iff new.id j, ==_iff x.id j, ==_iff x.id new.id, find_row-set_row_ne j new rows n)

has_event-append :
    (tenant key : String) (events : List CallbackEvent) (e : CallbackEvent)
    → e.tenant_id ≡ tenant
    → e.idempotency_key ≡ key
    → has_event tenant key (events ++ e ∷ []) ≡ true
has_event-append tenant key [] e t k =
    ground (arith, ==_iff e.tenant_id tenant, ==_iff e.idempotency_key key)
has_event-append tenant key (x ∷ events) e t k =
    ground (arith, has_event-append tenant key events e t k)

-- What a request that returns has done: nothing, or one change of the row that it names.
pub record Changed (zones : ZoneDatabase) (now : ℕ) (event_id callback_id : String)
    (target : Target) (body : Change) (key correlation : String) (p : Principal) (db db' : Database)
    : Type 0 where
  pub old : CallbackRecord
  pub new : CallbackRecord
  pub loaded : load db callback_id p ≡ ok old
  pub revised : revise zones now target body p old ≡ ok new
  pub committed : db' ≡ commit db event_id target body key correlation p old new

pub mutate-Changed :
    (zones : ZoneDatabase) (now : ℕ) (event_id callback_id : String) (target : Target)
    (body : Change) (key correlation : String) (db : Database) (p : Principal) (v : CallbackView)
    (db' : Database)
    → mutate zones now event_id callback_id target body key correlation db p ≡ ok (v, db')
    → ((has_event p.tenant key db.events ≡ true) × (db' ≡ db))
      ⊎ ((has_event p.tenant key db.events ≡ false)
          × Changed zones now event_id callback_id target body key correlation p db db')
unfolding mutate
mutate-Changed zones now event_id callback_id target body key correlation db p v db' h =
    let (row, loaded, h₁) = >>=-eq-ok (load db callback_id p) _ h in
    elim (Bool-cases (has_event p.tenant key db.events)) [
      | inl seen ↦ inl (seen, cc (rw seen at h₁))
      | inr fresh ↦
          let h₂ = rw fresh at h₁ in
          let (new, revised, h₃) = >>=-eq-ok (revise zones now target body p row) _ h₂ in
          inr (
            fresh,
            record { old = row; new = new; loaded = loaded; revised = revised; committed = cc h₃ },
          )
    ]

scope-tenant :
    (p : Principal) (tenant campaign : String)
    → scope p tenant campaign ≡ ok tt
    → (tenant ≡ p.tenant) × (contains campaign p.campaigns ≡ true)
unfolding scope
scope-tenant p tenant campaign h = ground (arith, ==_iff tenant p.tenant)

-- A callback that a caller can load is one of the caller's tenant and campaigns.
pub load-scope :
    (db : Database) (callback_id : String) (p : Principal) (row : CallbackRecord)
    → load db callback_id p ≡ ok row
    → (find_row callback_id db.rows ≡ some row)
      × (row.tenant_id ≡ p.tenant)
      × (contains row.campaign_id p.campaigns ≡ true)
unfolding load
load-scope db callback_id p row h = elim (Option-cases (find_row callback_id db.rows)) [
  | inl missing ↦ cc (rw (load, missing) at h)
  | inr (r, e) ↦
      let (u, scoped, h₁) = >>=-eq-ok (scope p r.tenant_id r.campaign_id) _ (rw (load, e) at h) in
      let (_, h₂) = raise_if-eq-ok _ _ (ok r) h₁ in
      let same : r ≡ row = cc h₂ in
      let facts = scope-tenant p r.tenant_id r.campaign_id scoped in
      (cc (e, same), rw (← same) facts.0, rw (← same) facts.1)
]

module _ (zones : ZoneDatabase) (now : ℕ) (event_id callback_id : String) (target : Target)
    (body : Change) (key correlation : String) (db : Database) (p : Principal) (v : CallbackView)
    (db' : Database)
    (returned : mutate zones now event_id callback_id target body key correlation db p
      ≡ ok (v, db')) where
  -- After a request that returned, its key has been used by its tenant.
  pub has_event-mutate : has_event p.tenant key db'.events ≡ true
  unfolding commit event
  has_event-mutate =
      elim (mutate-Changed zones now event_id callback_id target body key correlation db p v db'
        returned) [
          | inl (seen, same) ↦ rw same seen
          | inr (fresh, c) ↦
              let new_tenant = (revise-identity zones now target body p c.old c.new c.revised).1 in
              rw c.committed (
                has_event-append p.tenant key db.events _
                  (new_tenant ∙ (load-scope db callback_id p c.old c.loaded).1) refl)
        ]

  pub fresh-Changed :
      has_event p.tenant key db.events ≡ false
      → Changed zones now event_id callback_id target body key correlation p db db'
  fresh-Changed fresh =
      elim (mutate-Changed zones now event_id callback_id target body key correlation db p v db'
        returned) [ inl (seen, _) ↦ absurd (true≢false (sym seen ∙ fresh)) | inr (_, c) ↦ c ]

  -- A first request with its key raises the version of its row by one, from the version that it
  -- expects; no other row changes.
  pub mutate-version :
      has_event p.tenant key db.events ≡ false
      → (old new : CallbackRecord) × (find_row callback_id db.rows ≡ some old)
        × (find_row callback_id db'.rows ≡ some new)
        × (old.version ≡ body.expected_version)
        × (new.version ≡ old.version + 1)
        × ((j : String) → callback_id ≢ j → find_row j db'.rows ≡ find_row j db.rows)
  unfolding commit
  mutate-version fresh =
      let c = fresh-Changed fresh in
      let found = (load-scope db callback_id p c.old c.loaded).0 in
      let versions = revise-version zones now target body p c.old c.new c.revised in
      let same_id : c.new.id ≡ callback_id =
        (revise-identity zones now target body p c.old c.new c.revised).0
        ∙ id-find_row callback_id db.rows c.old found in
      (
        c.old,
        c.new,
        found,
        rw c.committed
            (rw (← same_id) (find_row-set_row_self c.new db.rows c.old (rw same_id found))),
        versions.0,
        versions.1,
        λ j n. rw c.committed (find_row-set_row_ne j c.new db.rows (λ e. n (sym same_id ∙ e))),
      )
