-- ===== src/Providers.antt =====
-- packages/providers/src: model references, prices, retries, fallback chains and the router.
mod Tests
pub mod Errors
pub mod ModelRef
pub mod Pricing
pub mod Retry
pub mod Chain
pub mod Fallback
pub mod Router
