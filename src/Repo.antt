-- ===== src/Repo.antt =====
-- internal/repo: the queries that sqlc generated from db/queries, each with its SQL statement.
pub mod Users
pub mod Orgs
pub mod Contexts
pub mod Tokens
pub mod Keys
pub mod Audit
pub mod Projects
pub mod Files
pub mod Webhooks
pub mod Subscriptions
pub mod Upkeep
pub mod Trail
pub mod AuditTrail
pub mod TokenTrail
pub mod AccountTrail
pub mod ResetTrail
