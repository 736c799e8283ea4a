-- ===== src/Examples.antt =====
-- Runs of the definitions on concrete inputs, and the theorems applied to them.
pub mod Numbers
pub mod Drone
pub mod Planned
pub mod Fleet
pub mod Simulated
pub mod Judged
pub mod Grounded
pub mod Client
pub mod Nodes
pub mod Run
pub mod Matched
