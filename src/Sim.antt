-- ===== src/Sim.antt =====
-- internal/sim: the deterministic simulation of a cluster.
pub mod Clock
pub mod Heap
pub mod Cluster
pub mod Network
pub mod Steps
pub mod Runs
pub mod Rule
pub mod Timed
pub mod Reached
pub mod Delayed
pub mod Stuck
pub mod Faults
mod Tests
