-- ===== src/Scheduler.antt =====
-- src/swarm/controller/scheduler.py with what it uses: the authority over a site's epoch
-- (src/swarm/recovery/authority.py) and the capability profiles (src/swarm/evals/profiles.py).
pub mod Authority
pub mod Epochs
pub mod Integers
pub mod Profiles
pub mod Choose
pub mod Hold
pub mod Selected
pub mod Outcome
mod Tests
