-- ===== src/Billing.antt =====
-- internal/billing: orders, payments, promo codes, the ledger and webhooks.
pub mod Model
pub mod Store
pub mod Repository
pub mod Settlement
pub mod Atomic
pub mod Settled
pub mod Promos
pub mod Keeps
pub mod Counts
pub mod Books
pub mod Delivery
pub mod Fulfilment
pub mod Service
pub mod Expirer
pub mod Requests
mod Tests
pub mod Delivered
pub mod Pricing
pub mod Providers
pub mod Signed
mod ProviderTests
