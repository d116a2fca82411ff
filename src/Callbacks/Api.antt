-- ===== src/Callbacks/Api.antt =====
-- The handlers of app/api/v1/callbacks.py that change a stored callback: `mutate`, behind six POST
-- routes and one PATCH, and `callback_result`. A handler that raises commits nothing, so an error
-- stands for an unchanged database. The row-level security context, which PostgreSQL enforces, is
-- not modelled: the checks below are the program's own.
mod Access
mod Change
mod Commit
mod Results
unfoldable pub use Access.*
unfoldable pub use Change.*
unfoldable pub use Commit.*
unfoldable pub use Results.*
