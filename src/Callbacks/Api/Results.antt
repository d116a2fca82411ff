-- ===== src/Callbacks/Api/Results.antt =====
-- `callback_result` of app/api/v1/callbacks.py: what a delivery reports.
use codestra_middleware.Base.{
  ℕ, ◌+◌, ◌^◌, min, Bool, not, ◌&&◌, Option, none, some, List, [], ◌∷◌, String, ok, err, ◌>>=◌,
  ◌>>◌, raise_if, if◌then◌else◌, ◌==◌, nat_eq, string_eq,
}
use codestra_middleware.Raised.{Outcome, http_exception}
use codestra_middleware.Clock.{minutes}
use codestra_middleware.Callbacks.Records.{CallbackDelivery, Database, Principal, DeliveryResult}
use codestra_middleware.Callbacks.Api.Access.{load}

abbrev is_result_for : String → DeliveryResult → CallbackDelivery → Bool
is_result_for callback_id body d =
    d.callback_id == callback_id
    && d.callback_version == body.callback_version
    && d.channel == body.channel
    && d.stage == body.stage

-- The delivery after its result: a failure waits twice as long each time, at most an hour.
unfoldable pub settle_delivery : ℕ → DeliveryResult → CallbackDelivery → CallbackDelivery
settle_delivery now body d =
    let attempts = if body.status == "FAILED" then d.attempt_count + 1 else d.attempt_count in
    record d {
      status = body.status;
      message_id = body.message_id;
      provider_message_id = body.provider_message_id;
      last_error_code = body.error_code;
      attempt_count = attempts;
      next_attempt_at =
          if body.status == "FAILED" then some (now + minutes (min 60 (2 ^ attempts))) else none;
    }

-- The first delivery that the result is for, settled; `none` where there is none.
unfoldable pub settle_first :
    ℕ → String → DeliveryResult → List CallbackDelivery → Option (List CallbackDelivery)
settle_first now callback_id body [] = none
settle_first now callback_id body (d ∷ ds) =
    let rest = settle_first now callback_id body ds in
    if is_result_for callback_id body d
    then some (settle_delivery now body d ∷ ds)
    else elim rest [ none ↦ none | some ds' ↦ some (d ∷ ds') ]

-- `callback_result`
unfoldable pub callback_result :
    ℕ → String → DeliveryResult → Database → Principal → Outcome ((String × ℕ × String) × Database)
callback_result now callback_id body db p = do
  raise_if (not (p.role == "service")) (http_exception 403 "service identity required")
  row ← load db callback_id p
  raise_if (not (body.callback_version == row.version))
      (http_exception 409 "stale callback delivery result")
  elim (settle_first now callback_id body db.deliveries) [
    | none ↦ err (http_exception 404 "callback delivery not found")
    | some deliveries ↦
        ok ((callback_id, row.version, body.status), record db { deliveries = deliveries })
  ]
