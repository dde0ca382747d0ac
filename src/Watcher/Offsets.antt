-- ===== src/Watcher/Offsets.antt =====
-- src/logs/watcher.rs: the file that the offsets are kept in between runs. Writing it (a temporary
-- file, which is synced and renamed) and reading it are left to the operating system: `save_offsets`
-- is the text that is written, and `load_offsets` takes what `read_to_string` answers.
pub mod Saved
use witness.Prelude.{ℕ, Option, none, some, List, [], ◌∷◌, ◌++◌}
use witness.Prelude.Str.{Bytes}
use witness.Utf8.{from_utf8_lossy}
use witness.Assoc.{Assoc, bytes_key, insert}
use witness.Std.Split.{lines, split_once}
use witness.Std.Number.{parse_uint, u64}
use witness.Std.Print.{print}
use witness.Watcher.State.{TailedFile, FileId}
use witness.Watcher.Registry.{SavedOffset}

unfoldable pub offset_line : TailedFile → Bytes
unfolding from_utf8_lossy print
offset_line t =
    from_utf8_lossy t.path
    ++ b'\t' ∷ (print t.pos ++ b'\t' ∷ (print t.id.dev ++ b'\t' ∷ print t.id.ino))

unfoldable pub save_offsets : List (FileId × TailedFile) → Bytes
unfolding offset_line
save_offsets [] = []
save_offsets ((id, t) ∷ m) = offset_line t ++ b'\n' ∷ save_offsets m

-- `splitn(4, '\t')`, when it has four pieces.
abbrev pub four_parts : Bytes → Option (Bytes × Bytes × Bytes × Bytes)
four_parts line = elim (split_once b'\t' line) [
  | none ↦ none
  | some (a, r) ↦ elim (split_once b'\t' r) [
    | none ↦ none
    | some (b, q) ↦ elim (split_once b'\t' q) [ none ↦ none | some (c, d) ↦ some (a, b, c, d) ]
  ]
]

abbrev pub offset_of : Option ℕ → Option ℕ → Option ℕ → Option SavedOffset
offset_of (some pos) (some dev) (some ino) = some (record { pos = pos; dev = dev; ino = ino })
offset_of _ _ _ = none

unfoldable pub parse_offset : Bytes → Option (Bytes × SavedOffset)
unfolding split_once parse_uint
parse_offset line = elim (four_parts line) [
  | none ↦ none
  | some (path, pos, dev, ino) ↦
      elim (offset_of (parse_uint u64 pos) (parse_uint u64 dev) (parse_uint u64 ino)) [
        | none ↦ none
        | some o ↦ some (path, o)
      ]
]

unfoldable pub add_offsets : List Bytes → Assoc Bytes SavedOffset → Assoc Bytes SavedOffset
unfolding parse_offset insert
add_offsets [] m = m
add_offsets (line ∷ ls) m = elim (parse_offset line) [
  | none ↦ add_offsets ls m
  | some (path, o) ↦ add_offsets ls (insert path o m)
]

unfoldable pub load_offsets : Option Bytes → Assoc Bytes SavedOffset
unfolding lines add_offsets
load_offsets none = []
load_offsets (some contents) = add_offsets (lines contents) []
