-- ===== src/Lease.antt =====
-- The durable worker, attempt, lease and result store (src/swarm/db/lease_fencing.py).
pub mod Rows
pub mod Authority
pub mod Claim
pub mod RenewalChecks
pub mod Renew
pub mod Expire
pub mod Cancel
pub mod AcceptFence
pub mod Results
pub mod Workers
pub mod Moves
pub mod Refinement
pub mod Acceptance
pub mod System
pub mod Credentials
mod Tests
