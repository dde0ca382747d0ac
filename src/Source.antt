-- ===== src/Source.antt =====
-- src/logs/source.rs: the checkpoint file and the delay between restarts, for every source.
use witness.Prelude.{ℕ, ◌+◌, ◌*◌, min, ◌≡◌, Bool, true, Option, none, some, [], ◌∷◌, if◌then◌else◌}
use witness.Prelude.Str.{Bytes}
use witness.Utf8.{is_utf8}
use witness.Std.Trim.{trim}

-- A checkpoint file: what it holds, and what the file system will answer to each attempt to replace
-- it (`false`: the temporary file could not be made, written, synced or renamed).
pub record CheckpointFile : Type 0 where
  pub content : Option Bytes
  pub replaces : ℕ → Bool
  pub attempts : ℕ

-- The file is replaced as a whole, or stays as it was.
unfoldable pub write_checkpoint : CheckpointFile → Bytes → CheckpointFile
write_checkpoint file bytes = record file {
  content = if file.replaces file.attempts then some bytes else file.content;
  attempts = file.attempts + 1;
}

abbrev pub Replaces : CheckpointFile → Type 0
Replaces file = (n : ℕ) → file.replaces n ≡ true

-- Double the delay, up to a limit; delays are milliseconds.
unfoldable pub next_backoff : ℕ → ℕ → ℕ
next_backoff current most = min (current * 2) most

abbrev non_empty : Bytes → Option Bytes
non_empty [] = none
non_empty (c ∷ cs) = some (c ∷ cs)

-- What a checkpoint file says: `read_to_string` fails on a file that is not there, or is not UTF-8;
-- the text is trimmed, and an empty one counts for nothing.
unfoldable pub read_trimmed : CheckpointFile → Option Bytes
unfolding is_utf8 trim
read_trimmed file = elim file.content [
  | none ↦ none
  | some s ↦ if is_utf8 s then non_empty (trim s) else none
]
