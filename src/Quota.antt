-- ===== src/Quota.antt =====
-- The quota ledger of the broker, src/swarm/broker/ledger.py.
pub mod Buckets
pub mod Estimate
pub mod Reserve
pub mod Settle
pub mod Merge
pub mod Granted
pub mod Exact
pub mod Reservation
pub mod Covered
pub mod Settled
pub mod System
mod Tests
