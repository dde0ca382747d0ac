-- ===== src/Watcher/Registry.antt =====
-- src/logs/watcher.rs: the files that are tailed, by identity, and the index of their paths.
use witness.Prelude.{
  ℕ, min, Bool, false, not, ◌&&◌, Option, none, some, [], ltb, if◌then◌else◌, is_some,
}
use witness.Prelude.Str.{Bytes}
use witness.Assoc.{Assoc, bytes_key, lookup, insert, contains}
use witness.Watcher.State.{FileId, same_id, TailedFile}
use witness.Watcher.Identity.{FileSystem, Metadata, file_is_utf16, file_id_key}

pub record SavedOffset : Type 0 where
  pub pos : ℕ
  pub dev : ℕ
  pub ino : ℕ

pub record Registry : Type 0 where
  pub files : Assoc FileId TailedFile
  pub index : Assoc Bytes FileId

abbrev pub ignore_older_secs : ℕ
ignore_older_secs = 86400

abbrev saved_id : SavedOffset → FileId
saved_id s = record { dev = s.dev; ino = s.ino }

-- The saved offset of a path, if it is of this very file.
unfoldable pub checkpoint_of : Assoc Bytes SavedOffset → Bytes → FileId → Option ℕ
unfolding lookup
checkpoint_of saved path id = elim (lookup path saved) [
  | none ↦ none
  | some s ↦ if same_id (saved_id s) id then some s.pos else none
]

abbrev is_old : Option ℕ → Bool
is_old none = false
is_old (some age) = ltb ignore_older_secs age

-- Not touched for a day, and neither checkpointed nor in place of a rotated file.
abbrev pub is_ignored : Option ℕ → Option ℕ → Option ℕ → Bool
is_ignored initial_pos checkpoint age =
    not (is_some initial_pos) && not (is_some checkpoint) && is_old age

-- Where reading begins: as told; else at the checkpoint, or at the end if the file is shorter now;
-- else at the end.
abbrev pub start_pos : Option ℕ → Option ℕ → ℕ → ℕ
start_pos (some pos) checkpoint len = pos
start_pos none (some pos) len = min pos len
start_pos none none len = len

abbrev pub new_file : FileSystem → Bytes → FileId → ℕ → TailedFile
new_file fs path id pos = record {
  path = path;
  pos = pos;
  id = id;
  partial = [];
  open_failures = 0;
  retained_fd = none;
  skip_utf16 = file_is_utf16 fs path;
  agg = none;
}

-- Behind the look at the metadata.
unfoldable pub register_as :
    FileSystem → Metadata → Option ℕ → Option ℕ → Bytes → Registry → Registry
unfolding lookup insert
register_as fs meta checkpoint initial_pos path r =
    if contains meta.id r.files
    then r
    else if is_ignored initial_pos checkpoint meta.age
    then r
    else record {
      files =
          insert meta.id (new_file fs path meta.id (start_pos initial_pos checkpoint meta.len))
            r.files;
      index = insert path meta.id r.index;
    }

unfoldable pub register_file :
    FileSystem → Assoc Bytes SavedOffset → Option ℕ → Bytes → Registry → Registry
unfolding register_as checkpoint_of
register_file fs saved initial_pos path r = elim (fs.metadata path) [
  | none ↦ r
  | some meta ↦ register_as fs meta (checkpoint_of saved path meta.id) initial_pos path r
]
