-- ===== src/Http/Handlers.antt =====
-- internal/http/handlers: one function for each handler, over the context of the middleware, the
-- parameters of the path and the body as gin binds it.
pub mod Auth
pub mod Orgs
pub mod Contexts
pub mod Projects
pub mod Billing
pub mod ApiKeys
pub mod Me
pub mod Webhooks
pub mod Storage
pub mod Audit
