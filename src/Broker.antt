-- ===== src/Broker.antt =====
-- What the broker asks before a call is sent: src/swarm/broker/circuit.py and src/swarm/broker/policy.py.
pub mod Circuit
pub mod Opening
pub mod Policy
pub mod Eligible
mod Tests
