-- ===== src/Std.antt =====
-- The parts of Rust's standard library on `&str` and slices that the agent's parsers call.
pub mod Scan
pub mod Split
pub mod Trim
pub mod Case
pub mod Number
pub mod Print
