-- ===== src/Graph.antt =====
-- The task graph of a mission and the proposals to change it, src/swarm/controller/graph.py.
pub mod Walks
pub mod Search
pub mod Specs
pub mod Proposals
mod Tests
