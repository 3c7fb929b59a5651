-- ===== src/Vpn/Fleet.antt =====
-- internal/vpn: the servers, the subscriptions on them, and the service that creates and moves them.
pub mod Model
pub mod Store
pub mod Selection
pub mod Queries
pub mod Persist
pub mod Updates
pub mod Uris
pub mod Provisioner
pub mod Issue
pub mod Service
pub mod Migrations
pub mod Same
pub mod Failure
pub mod Ends
pub mod Effects
pub mod Removal
pub mod Choice
pub mod Ranking
pub mod Clients
pub mod Load
pub mod Leads
pub mod Invariant
pub mod Relocated
pub mod Turns
pub mod Migrated
pub mod Reachable
pub mod Stored
pub mod Fetched
mod Samples
mod Tests
