-- ===== src/Callbacks/Api/Access.antt =====
-- How a handler of app/api/v1/callbacks.py finds the row that its caller may see, and the truth
-- values of fields that may be `None`.
use codestra_middleware.Base.{
  Bool, true, false, not, ◌&&◌, ◌||◌, Option, none, some, List, [], ◌∷◌, String, ok, err, ◌>>◌,
  raise_if, if◌then◌else◌, ◌==◌, nat_eq, string_eq, contains, ⊤,
}
use codestra_middleware.Raised.{Outcome, http_exception}
use codestra_middleware.Text.{is_empty}
use codestra_middleware.Callbacks.Records.{CallbackRecord, Database, Principal}

-- `value == text` and `value in texts`, where the value may be `None`.
abbrev pub is_text : Option String → String → Bool
is_text none s = false
is_text (some t) s = t == s

abbrev pub is_in : Option String → List String → Bool
is_in none xs = false
is_in (some t) xs = contains t xs

-- The truth value of a text that may be `None`.
abbrev pub truthy : Option String → Bool
truthy none = false
truthy (some s) = not (is_empty s)

abbrev pub is_none {ℓ} : {A : Type ℓ} → Option A → Bool
is_none none = true
is_none (some _) = false

-- `new if new is not None else old`
abbrev pub given {ℓ} : {A : Type ℓ} → Option A → A → A
given none old = old
given (some new) old = new

-- `_scope`
unfoldable pub scope : Principal → String → String → Outcome ⊤
scope p tenant campaign =
    raise_if (not (tenant == p.tenant) || not (contains campaign p.campaigns))
      (http_exception 403 "callback scope denied")

unfoldable pub find_row : String → List CallbackRecord → Option CallbackRecord
find_row id [] = none
find_row id (r ∷ rows) = if r.id == id then some r else find_row id rows

-- `_load`
unfoldable pub load : Database → String → Principal → Outcome CallbackRecord
unfolding scope
load db callback_id p = elim (find_row callback_id db.rows) [
  | none ↦ err (http_exception 404 "callback not found")
  | some row ↦ do
    scope p row.tenant_id row.campaign_id
    raise_if
        (p.role == "agent"
          && not (is_text row.assigned_agent_id p.actor)
          && not (is_in row.assigned_team_id p.teams))
        (http_exception 403 "callback assignment denied")
    ok row
]
