-- ===== src/Tenancy.antt =====
-- apps/server/src/tenancy: roles, rate limits and the users of the in-memory store.
mod Tests
pub mod Users
pub mod Store
pub mod Service
pub mod Analytics
pub mod Rbac
pub mod RateLimit
