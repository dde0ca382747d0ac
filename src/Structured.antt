-- ===== src/Structured.antt =====
-- src/logs/structured.rs: the level, the body and the fields of a log line.
pub mod Severity
pub mod Logfmt
pub mod Classify
