-- ===== src/Metrics.antt =====
-- src/metrics/mod.rs and src/sink.rs: what the collectors read, and what they send.
pub mod Filter
pub mod Derived
pub mod Network
pub mod Disk
pub mod Mounts
pub mod Tcp
pub mod Cpu
pub mod Cgroups
pub mod Top
pub mod Process
pub mod Space
pub mod Container
use witness.Prelude.{ℕ, Bool, Option, List}
use witness.Prelude.Str.{Bytes}

-- The arithmetic of `f64`, which the theorems say nothing about. `of_u64` is `as f64`.
pub record Floats : Type 1 where
  pub F64 : Type 0
  pub of_u64 : ℕ → F64
  pub add : F64 → F64 → F64
  pub subtract : F64 → F64 → F64
  pub times : F64 → F64 → F64
  pub divide : F64 → F64 → F64
  pub is_finite : F64 → Bool
  pub less : F64 → F64 → Bool

pub data Kind : Type 0 where
  gauge counter checkpoint : Kind

-- One call of a metric method of the sink.
pub record Metric (F64 : Type 0) : Type 0 where
  pub kind : Kind
  pub name : Bytes
  pub value : F64
  pub labels : List (Bytes × Bytes)

-- `read_procfs`: what the file holds now, or the failure to read it.
abbrev pub Procfs : Type 0
Procfs = Bytes → Option Bytes
