-- ===== src/Mission.antt =====
-- src/swarm/controller/mission.py: the controller of missions, over the validation of proposals and
-- the scheduler.
pub mod State
pub mod Commit
pub mod Work
pub mod Complete
pub mod Sound
pub mod Gathered
pub mod System
pub mod Dispatch
pub mod Revisions
pub mod Races
pub mod Finished
mod Tests
