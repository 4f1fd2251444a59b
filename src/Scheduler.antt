-- ===== src/Scheduler.antt =====
-- system/CPU/scheduling/scheduler: threads, processes and the switch between them.
pub mod Defs
pub mod Create
pub mod Control
pub mod Clean
pub mod Switch
mod Kept
mod Changes
mod Cleaned
mod Vectors
mod Cleaning
mod Making
mod Processes
mod Blocking
mod Search
mod Choice
mod Saving
mod Selection
mod Switching
mod Cpus
mod Reach
mod Hogging
mod Waiting
mod Tests
