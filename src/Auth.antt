-- ===== src/Auth.antt =====
-- Logging in, sessions and passwords (src/auth/auth.service.ts).
pub mod Types
pub mod Login
pub mod Service
pub mod Change
pub mod Lockout
pub mod Spent
pub mod Rotation
pub mod Renewal
pub mod Reset
pub mod Slug
mod Tests
