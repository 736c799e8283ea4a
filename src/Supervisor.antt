-- ===== src/Supervisor.antt =====
-- supervisor.py: which drone flies what, for the whole mission.
pub mod State
pub mod Start
pub mod Reallocate
pub mod HandOver
pub mod Relief
pub mod Messages
pub mod Reallocation
pub mod Checking
pub mod Guarantees
pub mod Missions
pub mod Launches
pub mod Reachable
pub mod Tasks
