-- ===== src/Auth.antt =====
-- internal/auth/auth.go
pub mod Hmac
pub mod Keys
pub mod Machines
pub mod Middleware
pub mod Request
pub mod Jwt
pub mod Generate
mod Tests
