-- ===== src/Domain/Upkeep.antt =====
-- The services uphold what the statements below them uphold.
mod Reads
mod Accounts
mod Resources
pub use Reads.*
pub use Accounts.*
pub use Resources.*
