-- ===== src/Watcher/State.antt =====
-- src/logs/watcher.rs, src/logs/multiline.rs: the state that is kept for a tailed file.
use witness.Prelude.{ℕ, ◌≡◌, ◌↔◌, Bool, true, ◌&&◌, Option, arith, ◌==◌}
use witness.Prelude.Str.{Bytes}
use witness.Text.{Reader}

pub record FileId : Type 0 where
  pub dev : ℕ
  pub ino : ℕ

abbrev pub same_id : FileId → FileId → Bool
same_id a b = a.dev == b.dev && a.ino == b.ino

pub same_id_iff : (a b : FileId) → (same_id a b ≡ true) ↔ (a ≡ b)
same_id_iff a b = ground arith

-- An open file: the buffered reader behind a seek to an offset, or `none` if the seek fails.
-- Offsets are `u64` in the source and do not come near its bound.
pub record File : Type 0 where
  pub reader_at : ℕ → Option Reader

-- `multiline::Aggregator`; an instant is a number of milliseconds.
pub record Aggregator : Type 0 where
  pub joined : Bytes  -- `record`
  pub record_bytes : ℕ
  pub read_ahead : ℕ
  pub partial_bytes : ℕ
  pub last_append : Option ℕ

pub record TailedFile : Type 0 where
  pub path : Bytes
  pub pos : ℕ
  pub id : FileId
  pub partial : Bytes
  pub open_failures : ℕ
  pub retained_fd : Option File
  pub skip_utf16 : Bool
  pub agg : Option Aggregator
