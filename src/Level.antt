-- ===== src/Level.antt =====
-- `tell::LogLevel`, as the agent names its values.

pub data LogLevel : Type 0 where
  emergency alert critical error warning notice info debug : LogLevel
