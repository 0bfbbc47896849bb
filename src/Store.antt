-- ===== src/Store.antt =====
-- src/store.ts and src/store-d1.ts: the D1 tables as lists of rows in insertion order, and the
-- statements that the store sends as operations on them.
pub mod Sql
pub mod Schema
pub mod Accounts
pub mod Usage
pub mod Adjustments
pub mod Buckets
pub mod Audit
pub mod Clients
pub mod Tokens
pub mod Settings
pub mod Jobs
pub mod Redemption
mod Tests
