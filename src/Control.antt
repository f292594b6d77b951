-- ===== src/Control.antt =====
-- src/roo_wifi/controller.h and controller.cpp: the desired state of the station, its transitions,
-- scans and retries.
pub mod Interfaces
pub mod State
pub mod Retry
pub mod Requests
pub mod Work
pub mod Events
pub mod Diagram
pub mod Frames
pub mod Moves
pub mod Tasks
pub mod Rounds
pub mod Runs
pub mod RetryBounds
pub mod Completion
pub mod Faults
pub mod Parts
pub mod Same
pub mod Listeners
pub mod Intents
