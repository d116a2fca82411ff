-- ===== src/Controller.antt =====
-- The restricted controller of app/core/controller.py and the private agents' check of app/agent/
-- security.py: plans, approvals, approval tokens and executions.
pub mod Screening
pub mod Tokens
pub mod Replay
pub mod Servers
pub mod Tasks
pub mod Registry
pub mod Operations
pub mod Outcomes
pub mod Runs
pub mod Audit
pub mod Authority
pub mod Histories
pub mod Agents
pub mod Idempotence
pub mod Tests
pub mod Fleet
