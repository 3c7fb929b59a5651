-- ===== src/Platform.antt =====
-- internal/platform: the limit on the rate of requests.
pub mod Security
pub mod Windows
mod Tests
