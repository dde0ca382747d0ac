-- ===== src/Watcher/Identity.antt =====
-- src/logs/watcher.rs: file identities, byte-order marks, and the file system as the tailer sees it.
use witness.Prelude.{
  ℕ, ◌+◌, ◌*◌, Bool, true, false, not, ◌&&◌, Option, none, some, List, [], ◌∷◌, ◌++◌, map, ◌==◌,
  if◌then◌else◌, take, drop,
}
use witness.Prelude.Str.{Bytes, codes, eqb, starts_with}
use witness.Assoc.{Key}
use witness.Watcher.State.{FileId, same_id, same_id_iff, File, TailedFile}

-- `u64::from_le_bytes`.
unfoldable pub from_le_bytes : Bytes → ℕ
from_le_bytes [] = 0
from_le_bytes (b ∷ bs) = b + 256 * from_le_bytes bs

-- The 16 bytes of a `FILE_ID_INFO`, folded; the hash is the standard library's, which is not
-- specified.
unfoldable pub fold_file_id : (Bytes → ℕ) → ℕ → Bytes → FileId
unfolding from_le_bytes
fold_file_id hash volume_serial id = record {
  dev = volume_serial;
  ino = if from_le_bytes (drop 8 id) == 0 then from_le_bytes (take 8 id) else hash id;
}

pub data Bom : Type 0 where
  utf16_le utf16_be utf8 no_bom : Bom

abbrev pub is_utf16 : Bom → Bool
is_utf16 utf16_le = true
is_utf16 utf16_be = true
is_utf16 utf8 = false
is_utf16 no_bom = false

unfoldable pub detect_bom : Bytes → Bom
unfolding starts_with
detect_bom bytes =
    if starts_with (0xFF ∷ 0xFE ∷ []) bytes
    then utf16_le
    else if starts_with (0xFE ∷ 0xFF ∷ []) bytes
    then utf16_be
    else if starts_with (0xEF ∷ 0xBB ∷ 0xBF ∷ []) bytes
    then utf8
    else no_bom

-- `std::fs::Metadata` on Unix: the age is the seconds since the last change, if it can be told.
pub record Metadata : Type 0 where
  pub id : FileId
  pub len : ℕ
  pub age : Option ℕ

-- What the operating system answers at one moment: the metadata of a path; an open file with its
-- metadata; the first bytes that can be read; and the entries beside a path.
pub record FileSystem : Type 0 where
  pub metadata : Bytes → Option Metadata
  pub open_file : Bytes → Option (File × Option Metadata)
  pub head : Bytes → Option Bytes
  pub siblings : Bytes → List (Bytes × Option Metadata)

unfoldable pub file_is_utf16 : FileSystem → Bytes → Bool
unfolding detect_bom
file_is_utf16 fs path = elim (fs.head path) [
  | none ↦ false
  | some h ↦ is_utf16 (detect_bom (take 3 h))
]

abbrev pub opened_as : FileId → Option (File × Option Metadata) → Option File
opened_as id none = none
opened_as id (some (file, none)) = none
opened_as id (some (file, some meta)) = if same_id meta.id id then some file else none

abbrev pub first_some {ℓ} : {A : Type ℓ} → List (Option A) → Option A
first_some [] = none
first_some (none ∷ os) = first_some os
first_some (some a ∷ os) = some a

abbrev pub file_of : Option (File × Option Metadata) → Option File
file_of none = none
file_of (some (file, _)) = some file

-- An entry of the directory: the same inode, under another path.
abbrev pub sibling_as : FileSystem → TailedFile → Bytes × Option Metadata → Option File
sibling_as fs t (path, none) = none
sibling_as fs t (path, some meta) =
    if not (eqb path t.path) && same_id meta.id t.id then file_of (fs.open_file path) else none

abbrev pub rotation_suffixes : List Bytes
rotation_suffixes = codes ".1" ∷ codes ".0" ∷ codes "-1" ∷ []

unfoldable pub find_rotated_file : FileSystem → TailedFile → Option File
find_rotated_file fs t = first_some (
    map (λ suffix. opened_as t.id (fs.open_file (t.path ++ suffix))) rotation_suffixes
    ++ map (sibling_as fs t) (fs.siblings t.path))

instance abbrev pub file_id_key : Key FileId
file_id_key = record { same = same_id; same_iff = same_id_iff }
