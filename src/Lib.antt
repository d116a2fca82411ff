-- ===== src/Lib.antt =====
-- A model of the middleware's in-memory and transactional core, with the theorems that make it correct.
-- The Python code is translated function by function: dataclasses and pydantic models are records,
-- dicts are association lists (Base/Maps), an exception is an error of the type Raised, and a method
-- that changes an object takes the object and returns the new one. A method that raises before it
-- changes anything leaves the old object; where a route changes a record first and raises later, its
-- answer and the store are returned side by side (Orders/Api).
--
-- The parts, and the files that model them:
--   Base, Raised, Clock, Json, Text, Transitions: native numbers, results, dictionaries, exceptions,
--     instants in microseconds, JSON values, the string methods in use, and tables of state changes.
--   Callbacks: app/core/callbacks.py (the table, the phone number, the canonical time, the reminder times,
--     compliance_state) and, of app/api/v1/callbacks.py, _scope, _load, mutate (Api/Access, Api/Change,
--     Api/Commit) and callback_result (Api/Results) on the rows of app/db/models.py (Records). A request
--     is one transaction, as the row lock makes it.
--   Controller: app/core/controller.py. _reject_forbidden and redact of app/core/automation.py (Screening),
--     ApprovalTokens (Tokens), RestrictedController (Tasks, Operations, Servers, Registry), sequences of its
--     calls (Runs), and authorize_agent_request of app/agent/security.py (Agents). The controller's lock
--     makes a call one step, so that a run is a list of calls.
--   Orders: app/order_orchestration.py (the envelope and validate_for_dispatch in Orders, OrderStore in
--     Records, sequences of its calls in Store) and the routes of app/api/v1/orders.py that approve, reject
--     and dispatch (Api) and that take the reports of n8n (Results).
--   Reliability: app/core/reliability.py, retries (Backoff), the ledger (Ledger) and gates (Gates).
--   Telephony: app/core/telephony.py, the audit of an extension (Audit) and the saga's table (Saga).
--   Appointments: app/core/appointments.py, the table and the timed events (Lifecycle) and claims (Claims).
--   Recording: app/recording/domain.py and app/recording/retention.py (Retention), and RecordingService of
--     app/recording/service.py: reservations (Service), completion (Completion, Linking), failure and
--     playback (Linking), and how calls interleave while a completion waits for Odoo (Steps).
--   Sales: app/sales/compliance.py with the gates of app/sales/contracts.py (Compliance).
--   AiJobs: app/core/ai_jobs.py, app/core/ai_orchestration.py, app/core/ai_contracts.py and the completion
--     route of app/api/internal/ai_jobs.py, over the tables of the migrations 0030 and 0031: profiles
--     (Profiles), commands (Contracts), creation and submission (Creation), leases (Leases), claims
--     (Admission), endings (Endings, Details), recovery (Recovery) and approvals (Approvals). An operation is
--     one transaction. Moves says how an operation can change one job; Effects, Sweeps and Arrivals show it
--     of each operation, and Runs and Histories carry it over any calls.
--   TtsJobs: app/core/tts_jobs.py over the table of the migration 0033: its operations (Calls), how they can
--     change one row (Moves), and the table after any calls (Runs).
--   Policy: app/core/policy_engine.py, the checks of evaluate in their order.
--   Realtime: app/core/realtime.py, authorize_socket and ReplayBuffer, and the log of publications that the
--     buffer stands for (Log).
--   Ivr: app/core/ivr.py, the sessions of the voice menu and what they may reach.
--   Leads: app/core/lead_reconciliation.py, the resolution of identities and the decision.
--   Mapping: app/core/vicidial_mapping.py, the identifiers of campaigns in the dialer.
--
-- Code outside the repository is an argument: HMAC, SHA-256 and canonical JSON (Signer, Hashes, Wire,
-- Texts, and sha256 in Mapping), pathlib (Paths), X.509 (Certificates), the time zone database
-- (ZoneDatabase) and the regular expressions of redact (scrub). What the clock and uuid4 give is an
-- argument too. The instants of orders are numbers, so that times without an offset are not told apart
-- there. Upper and lower case are those of ASCII. Python's integers are unbounded;
-- counters and instants are natural numbers. No definition needs fuel but the decimal digits of a
-- number n, which take at most n + 1 rounds; the attempts of Mapping are the bound of the source.
--
-- Not modelled: the text of data_freshness in Policy and the columns of TtsJobs that no operation
-- reads, the creation of callbacks, the dashboards and queue queries, the orchestration/commands
-- routes, Prometheus counters, the details of audit events, and the other subsystems (social
-- publishing, the storage of recordings, sales identity, provider adapters, workers, deployment),
-- which are mostly calls of databases and services.
pub mod Base
pub mod Raised
pub mod Clock
pub mod Json
pub mod Text
pub mod Transitions
pub mod Callbacks
pub mod Controller
pub mod Orders
pub mod Reliability
pub mod Telephony
pub mod Appointments
pub mod Recording
pub mod Sales
pub mod AiJobs
pub mod TtsJobs
pub mod Realtime
pub mod Policy
pub mod Ivr
pub mod Leads
pub mod Mapping
