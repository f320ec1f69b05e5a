-- ===== src/Scheduler.antt =====
-- The shared semantic scheduler of app/services/semantic_scheduler.py: its state, the sections of
-- code that hold its condition, the worker's turn in stages, and what they keep.
pub mod State
pub mod Queue
pub mod Monitor
pub mod Turn
pub mod Count
pub mod Keeps
pub mod Sections
pub mod Drops
pub mod Quiets
pub mod Stages
pub mod Moves
pub mod Table
pub mod Steps
pub mod Invariant
pub mod Safety
pub mod Reachable
pub mod Debt
pub mod Rotation
pub mod Shutdown
pub mod Closing
mod Samples
