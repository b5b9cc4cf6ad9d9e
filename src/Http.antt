-- ===== src/Http.antt =====
-- internal/http: what a request brings, what gin's context carries through the middleware, and the
-- responses. A handler is an action that may answer early (`raise`).
pub mod Gin
pub mod Tenancy
pub mod Middleware
pub mod Handlers
pub mod Router
pub mod Engine
pub mod Health
pub mod Upkeep
pub mod Runs
