-- ===== src/Raised.antt =====
-- The exceptions that the modelled code raises, one constructor for each class, with its message. An `OverflowError` that
-- the program raises itself is `limit_error`; one of `datetime` is `overflow_error`.
use codestra_middleware.Base.{◌≡◌, ℕ, String, Result, ok, err}

pub data Raised : Type 0 where
  value_error : String → Raised
  permission_error : String → Raised
  callback_conflict : String → Raised
  controller_error : String → Raised
  http_exception : ℕ → String → Raised
  overflow_error : Raised
  key_error : String → Raised
  lookup_error : String → Raised
  limit_error : String → Raised

-- What a call of the program returns or raises.
abbrev pub Outcome {ℓ} : Type ℓ → Type ℓ
Outcome A = Result Raised A

-- `except ValueError as exc: raise HTTPException(status, str(exc))`; `CallbackConflict` and
-- `ControllerError` derive from `ValueError`.
abbrev pub as_http {ℓ} : {A : Type ℓ} → ℕ → Outcome A → Outcome A
as_http status (err (value_error m)) = err (http_exception status m)
as_http status (err (callback_conflict m)) = err (http_exception status m)
as_http status (err (controller_error m)) = err (http_exception status m)
as_http status r = r

pub as_http-eq-ok {ℓ} :
    {A : Type ℓ} (status : ℕ) (m : Outcome A) {a : A} → as_http status m ≡ ok a → m ≡ ok a
as_http-eq-ok status (ok b) h = h
as_http-eq-ok status (err (value_error m)) h = cc
as_http-eq-ok status (err (callback_conflict m)) h = cc
as_http-eq-ok status (err (controller_error m)) h = cc
as_http-eq-ok status (err _) h = h
