-- ===== src/Reservations.antt =====
-- src/swarm/controller/reservations.py: reservations of capacity over several resources.
pub mod Service
pub mod Returned
mod Tests
