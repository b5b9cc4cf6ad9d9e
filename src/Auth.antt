-- ===== src/Auth.antt =====
-- internal/auth: tokens, the store of refresh tokens and the store of password resets.
pub mod Jwt
pub mod RefreshStore
pub mod ResetStore
