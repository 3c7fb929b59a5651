-- ===== src/Monitoring.antt =====
-- internal/monitoring/engine.go: health of the nodes, and when their clients are moved away.
pub mod Engine
pub mod Health
mod Tests
