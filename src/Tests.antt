-- ===== src/Tests.antt =====
-- Concrete inputs: each theorem with hypotheses at one of them, and runs of the model.
mod Process
mod Runs
mod Sample
mod Smoke
mod Sessions
mod Access
mod Hooks
mod Limits
mod Work
mod Storage
mod Trail
mod Accounts
mod Tenants
