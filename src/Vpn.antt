-- ===== src/Vpn.antt =====
-- internal/vpn: configuration and provisioning of VPNs.
pub mod Net
pub mod Routing
pub mod Wireguard
pub mod Crypto
pub mod Fleet
mod Tests
