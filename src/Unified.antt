-- ===== src/Unified.antt =====
-- src/logs/unified.rs, src/logs/unified_parse.rs: the unified log of macOS.
pub mod Parse
pub mod Reader
pub mod Attempt
pub mod Delivery
pub mod Cycle
pub mod Backfill
