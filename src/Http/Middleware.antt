-- ===== src/Http/Middleware.antt =====
-- internal/http/middleware: each takes gin's context and hands it on, or answers and aborts.
pub mod Auth
pub mod Tenant
pub mod Rbac
pub mod Plan
pub mod RateLimit
pub mod Logging
pub mod Recover
