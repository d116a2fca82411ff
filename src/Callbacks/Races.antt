-- ===== src/Callbacks/Races.antt =====
-- Requests against the callback API (app/api/v1/callbacks.py) in any order: replays, lost updates
-- and the audit trail. Each request runs in one transaction that holds the lock of its row, so an
-- interleaving is a sequence of requests.
use codestra_middleware.Base.{
  ℕ, suc, ◌+◌, ◌≡◌, ◌≢◌, refl, sym, subst, ◌∙◌, inl, inr, true, false, some, List, [], ◌∷◌, ◌++◌,
  String, ok, err, if◌then◌else◌, arith, string_eq, ◌==◌, ==_iff, eq-of_==, true≢false, Bool-cases,
}
use codestra_middleware.Raised.{Outcome}
use codestra_middleware.Clock.{ZoneDatabase}
use codestra_middleware.Callbacks.Records.{
  CallbackRecord, CallbackEvent, Database, Principal, Change, Target,
}
use codestra_middleware.Callbacks.Api.{
  find_row, set_row, has_event, CallbackView, commit, event, mutate,
}
use codestra_middleware.Callbacks.Revisions.{revise-identity, revise-version}
use codestra_middleware.Callbacks.Store.{
  Changed, find_row-set_row_self, find_row-set_row_ne, mutate-Changed, mutate-version,
  has_event-mutate, id-find_row, load-scope,
}

-- A request that raises leaves the database as it was.
abbrev after : Database → Outcome (CallbackView × Database) → Database
after db (ok (_, db')) = db'
after db (err _) = db

-- The arguments of one call of `mutate`.
pub record Request : Type 0 where
  pub now : ℕ
  pub event_id : String
  pub callback_id : String
  pub target : Target
  pub body : Change
  pub key : String
  pub correlation : String
  pub principal : Principal

module _ (zones : ZoneDatabase) where
  abbrev pub call : Request → Database → Outcome (CallbackView × Database)
  call q db =
      mutate zones q.now q.event_id q.callback_id q.target q.body q.key q.correlation db q.principal

  -- A request whose key its tenant has used in an accepted request changes nothing, whatever it
  -- asks for.
  pub replay_changes_nothing :
      (q r : Request) (db db' db'' : Database) (v w : CallbackView)
      → call q db ≡ ok (v, db')
      → r.key ≡ q.key
      → r.principal.tenant ≡ q.principal.tenant
      → call r db' ≡ ok (w, db'')
      → db'' ≡ db'
  replay_changes_nothing q r db db' db'' v w first k t second =
      elim (mutate-Changed zones r.now r.event_id r.callback_id r.target r.body r.key r.correlation
        db' r.principal w db'' second) [
          | inl (_, same) ↦ same
          | inr (fresh, _) ↦
              let used =
                has_event-mutate zones q.now q.event_id q.callback_id q.target q.body q.key
                  q.correlation db q.principal v db' first in
              cc (used, fresh, k, t)
        ]

  -- Of two requests for one callback that expect the same version, the second changes nothing once
  -- the first has taken effect.
  pub no_lost_update :
      (q r : Request) (db db' db'' : Database) (v w : CallbackView)
      → call q db ≡ ok (v, db')
      → has_event q.principal.tenant q.key db.events ≡ false
      → r.callback_id ≡ q.callback_id
      → r.body.expected_version ≡ q.body.expected_version
      → call r db' ≡ ok (w, db'')
      → db'' ≡ db'
  no_lost_update q r db db' db'' v w first fresh same_callback same_version second =
      elim (mutate-Changed zones r.now r.event_id r.callback_id r.target r.body r.key r.correlation
        db' r.principal w db'' second) [
          | inl (_, same) ↦ same
          | inr (fresh', _) ↦
              let (old, new, _, found, expects, raised, _) =
                mutate-version zones q.now q.event_id q.callback_id q.target q.body q.key
                  q.correlation db q.principal v db' first fresh in
              let (old', _, found', _, expects', _, _) =
                mutate-version zones r.now r.event_id r.callback_id r.target r.body r.key
                  r.correlation db' r.principal w db'' second fresh' in
              let one : some old' ≡ some new = sym found' ∙ rw same_callback found in
              let versions : old'.version ≡ new.version = cc one in absurd (omega arith)
        ]

  pub handle : Request → Database → Database
  handle q db = after db (call q db)

  pub serve : List Request → Database → Database
  serve [] db = db
  serve (q ∷ qs) db = serve qs (handle q db)

abbrev pub count_events : String → List CallbackEvent → ℕ
count_events id [] = 0
count_events id (e ∷ events) =
    let rest = count_events id events in if e.callback_id == id then suc rest else rest

-- The events of a callback are as many as its version says.
pub record IsAudited (db : Database) : Type 0 where
  pub at_row :
      (id : String) (row : CallbackRecord)
      → find_row id db.rows ≡ some row
      → row.version ≡ count_events id db.events

count_events-append_self :
    (id : String) (events : List CallbackEvent) (e : CallbackEvent)
    → (e.callback_id == id) ≡ true
    → count_events id (events ++ e ∷ []) ≡ count_events id events + 1
count_events-append_self id [] e h = ground arith
count_events-append_self id (x ∷ events) e h =
    ground (arith, count_events-append_self id events e h)

count_events-append_ne :
    (id : String) (events : List CallbackEvent) (e : CallbackEvent)
    → (e.callback_id == id) ≡ false
    → count_events id (events ++ e ∷ []) ≡ count_events id events
count_events-append_ne id [] e h = ground arith
count_events-append_ne id (x ∷ events) e h = ground (arith, count_events-append_ne id events e h)

module _ (zones : ZoneDatabase) where
  Changed-IsAudited :
      (q : Request) (db db' : Database)
      → Changed zones q.now q.event_id q.callback_id q.target q.body q.key q.correlation q.principal
          db db'
      → IsAudited db
      → IsAudited db'
  unfolding commit event
  Changed-IsAudited q db db' c h =
      let found = (load-scope db q.callback_id q.principal c.old c.loaded).0 in
      let versions = revise-version zones q.now q.target q.body q.principal c.old c.new c.revised in
      let same_id : c.new.id ≡ q.callback_id =
        (revise-identity zones q.now q.target q.body q.principal c.old c.new c.revised).0
        ∙ id-find_row q.callback_id db.rows c.old found in
      let counted : c.old.version ≡ count_events c.new.id db.events =
        h.at_row c.new.id c.old (rw same_id found) in
      rw c.committed (record {
        at_row = λ id row e. elim (Bool-cases (c.new.id == id)) [
          | inl same ↦
              let i = eq-of_== c.new.id id same in
              let r : some c.new ≡ some row =
                sym (find_row-set_row_self c.new db.rows c.old (rw same_id found))
                ∙ subst (λ j. find_row j (set_row c.new db.rows) ≡ some row) (sym i) e in
              let newest : c.new ≡ row = cc r in
              let counted' : c.old.version ≡ count_events id db.events =
                subst (λ j. c.old.version ≡ count_events j db.events) i counted in
              let version : c.new.version ≡ row.version = cc newest in
              omega (arith, count_events-append_self id db.events _ same)
          | inr other ↦
              let ne : c.new.id ≢ id = λ i. true≢false (sym ((==_iff c.new.id id).1 i) ∙ other) in
              let old_row = h.at_row id row (sym (find_row-set_row_ne id c.new db.rows ne) ∙ e) in
              old_row ∙ sym (count_events-append_ne id db.events _ other)
        ];
      })

  after-IsAudited :
      (q : Request) (db : Database) (r : Outcome (CallbackView × Database))
      → call zones q db ≡ r
      → IsAudited db
      → IsAudited (after db r)
  after-IsAudited q db (err _) e h = h
  after-IsAudited q db (ok (v, db')) e h =
      elim (mutate-Changed zones q.now q.event_id q.callback_id q.target q.body q.key q.correlation
        db q.principal v db' e) [
          | inl (_, same) ↦ rw same h
          | inr (_, c) ↦ Changed-IsAudited q db db' c h
        ]

  -- Whatever requests are served, the audit trail stays complete: no change of a version goes
  -- without its event, and no event without its change.
  pub serve-IsAudited :
      (qs : List Request) (db : Database) → IsAudited db → IsAudited (serve zones qs db)
  unfolding serve handle
  serve-IsAudited [] db h = h
  serve-IsAudited (q ∷ qs) db h =
      serve-IsAudited qs (handle zones q db) (after-IsAudited q db (call zones q db) refl h)
