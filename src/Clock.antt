-- ===== src/Clock.antt =====
-- Instants and durations in microseconds, as Python's `datetime` counts them. An instant is counted
-- from `datetime.min` (0001-01-01), so it is never negative.
use codestra_middleware.Base.{String, ℕ, ◌-◌, ◌*◌, Option, ok, err, ltb, if◌then◌else◌, ℤ}
use codestra_middleware.Raised.{Outcome, overflow_error}

abbrev pub seconds : ℕ → ℕ
seconds n = n * 1000000

abbrev pub minutes : ℕ → ℕ
minutes n = n * 60000000

abbrev pub hours : ℕ → ℕ
hours n = n * 3600000000

abbrev pub days : ℕ → ℕ
days n = n * 86400000000

-- `instant - duration`, which raises below `datetime.min`.
unfoldable pub before : ℕ → ℕ → Outcome ℕ
before instant duration =
    if ltb instant duration then err overflow_error else ok (instant - duration)

-- A `datetime`: its instant in UTC and its offset in seconds; a naive one has no offset.
pub record DateTime : Type 0 where
  pub instant : ℕ
  pub utc_offset : Option ℤ

-- `ZoneInfo(name)` and its offset at an instant: the time zone database, which the program only
-- reads. `none` is `ZoneInfoNotFoundError`.
abbrev pub ZoneDatabase : Type 0
ZoneDatabase = String → Option (ℕ → ℤ)
