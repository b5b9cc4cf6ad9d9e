-- ===== src/Http/Upkeep.antt =====
-- The program from its statements up to its routes: a property of the tables that every statement
-- upholds is one that every request upholds.
pub mod Middleware
pub mod Accounts
pub mod Resources
pub mod Routes
