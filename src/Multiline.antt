-- ===== src/Multiline.antt =====
-- src/logs/multiline.rs: physical lines aggregated into records.
pub mod Record
pub mod Loop
pub mod Offsets
pub mod Invariant
pub mod Refusal
pub mod Kept
pub mod Due
