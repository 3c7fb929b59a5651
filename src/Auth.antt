-- ===== src/Auth.antt =====
-- internal/auth: accounts, sessions, two-factor codes.
pub mod Model
pub mod Totp
pub mod Store
pub mod Repository
pub mod Service
pub mod Steps
pub mod Sessions
pub mod Accounts
pub mod Race
pub mod Registration
pub mod Http
pub mod Admission
pub mod Revoked
mod Tests
mod HttpTests
