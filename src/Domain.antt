-- ===== src/Domain.antt =====
-- internal/domain: a service for each part of the domain, over the queries.
pub mod User
pub mod Org
pub mod UserCtx
pub mod ApiKey
pub mod Audit
pub mod Webhook
pub mod Project
pub mod Billing
pub mod Upkeep
pub mod File
