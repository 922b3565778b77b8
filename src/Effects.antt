-- ===== src/Effects.antt =====
-- The store of consequential tool effects, src/swarm/tools/effects.py.
pub mod Rows
pub mod Store
pub mod Frames
pub mod Begin
pub mod Approvals
pub mod Attempts
pub mod Winner
pub mod System
mod Tests
