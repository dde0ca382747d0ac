-- ===== src/Watcher.antt =====
-- src/logs/watcher.rs and src/logs/multiline.rs: the file tailer.
pub mod State
pub mod Lines
pub mod Delivery
pub mod Polls
pub mod Complete
pub mod Identity
pub mod Registry
pub mod Offsets
pub mod Index
pub mod Register
pub mod Kept
pub mod Poll
pub mod Schedule
pub mod Ticks
pub mod Ticking
pub mod Pace
pub mod Rotated
pub mod Found
