-- ===== src/Lease/Refinement.antt =====
-- The operations of the lease store, each against the protocol of the lease table.
pub mod Claims
pub mod Expiry
pub mod Due
pub mod Endings
pub mod Frames
pub mod Workers
