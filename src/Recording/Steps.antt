-- ===== src/Recording/Steps.antt =====
-- The recording service at work (app/recording/service.py): between two awaits its methods do not
-- interleave, but while a completion waits for Odoo any other call can come in.
use codestra_middleware.Base.{
  ℕ, ◌≡◌, List, [], ◌∷◌, ◌++◌, Option, none, String, ok, lookup, string_eq,
}
use codestra_middleware.Raised.{Outcome}
use codestra_middleware.Recording.Service.{ObjectHead, Service, Reservation, reserve}
use codestra_middleware.Recording.Completion.{Completion, Pending, Begun, awaiting, begin_complete}
use codestra_middleware.Recording.Linking.{Acknowledgement, link, failure}

-- The service and the completions that wait for Odoo.
pub record System : Type 0 where
  pub service : Service
  pub waiting : List Pending

abbrev pub empty_system : System
empty_system = record {
  service = record {
    recordings = [];
    by_idempotency = [];
    reservation_responses = [];
    object_versions = [];
    failure_results = [];
    audit = [];
    outbox = [];
  };
  waiting = [];
}

abbrev pub awaited : Outcome Begun → List Pending → List Pending
awaited (ok (awaiting p)) ps = p ∷ ps
awaited _ ps = ps

-- A new recording does not get an identifier that is in use.
pub data Step (s : System) : System → Type 0 where
  reserves :
      (storage : String → String → String → ℕ → String × ℕ) (uid opaque : String) (m : Reservation)
      → lookup uid s.service.recordings ≡ none
      → Step s (record s { service = (reserve storage uid opaque m s.service).1 })
  begins :
      (now : ℕ) (uid : String) (c : Completion) (head : Option ObjectHead)
      → Step s (record {
        service = (begin_complete now uid c head s.service).1;
        waiting = awaited (begin_complete now uid c head s.service).0 s.waiting;
      })
  links :
      (now : ℕ) (p : Pending) (reply : Outcome Acknowledgement) (before after : List Pending)
      → s.waiting ≡ before ++ (p ∷ after)
      → Step s (record { service = (link now p reply s.service).1; waiting = before ++ after })
  fails :
      (uid code key : String) → Step s (record s { service = (failure uid code key s.service).1 })

pub data Reaches (s : System) : System → Type 0 where
  start : Reaches s s
  step : {t u : System} → Reaches s t → Step t u → Reaches s u

-- What every step keeps holds of all that is reached.
pub Reaches-keeps :
    (P : System → Type 0)
    → ((t u : System) → P t → Step t u → P u)
    → {s t : System} → P s
    → Reaches s t
    → P t
Reaches-keeps P keeps p start = p
Reaches-keeps P keeps p (step {t = t} {u = u} r m) = keeps t u (Reaches-keeps P keeps p r) m
