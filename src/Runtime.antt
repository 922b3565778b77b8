-- ===== src/Runtime.antt =====
-- src/swarm/runtime/backpressure.py: a bounded queue and the quotas of providers, around the scheduler.
pub mod Backpressure
pub mod Limits
pub mod Dispatched
mod Tests
