-- ===== src/Router.antt =====
-- The part of the router's state on which the neighbors' and the interfaces' state machines work.
pub mod State
pub mod Actions
pub mod Election
pub mod NeighborFsm
pub mod Machines
mod Tests
