-- ===== src/Agent.antt =====
-- cmd/agent/main.go: the agent that runs on a VPN node.
pub mod Xray
pub mod Node
pub mod Server
pub mod Edits
pub mod Failures
mod Tests
