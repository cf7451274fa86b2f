-- ===== src/Identity.antt =====
-- Roles and one-time codes: internal/identity.
pub mod Role
pub mod Totp
pub mod Enroll
mod Tests
