-- ===== src/Metrics/Mounts.antt =====
-- src/metrics/linux/disk.rs: which mounts are reported.
pub mod Shortest
use witness.Std.Split.{lines, split_whitespace}
use Prim.Native.String.{String}
use witness.Metrics.Disk.{MountInfo}
pub mod Escapes
use witness.Prelude.{
  ℕ, ◌+◌, ◌-◌, ◌*◌, Bool, true, false, ◌&&◌, Option, none, some, List, [], ◌∷◌, map, leb, ◌==◌,
  if◌then◌else◌, length, any, is_empty,
}
use witness.Prelude.Str.{Bytes, codes, within, eqb}
use witness.Utf8.{from_utf8_lossy}

abbrev octal : ℕ → Bool
octal c = within b'0' b'7' c

-- The value of `\ooo`, if it is a byte's.
abbrev escaped : ℕ → ℕ → ℕ → ℕ → Bool
escaped a b c d = a == b'\\' && within b'0' b'3' b && octal c && octal d

unfoldable pub unescape_bytes : Bytes → Bytes
unescape_bytes (a ∷ b ∷ c ∷ d ∷ s) = elim (escaped a b c d) [
  | true ↦ ((b - b'0') * 64 + (c - b'0') * 8 + (d - b'0')) ∷ unescape_bytes s
  | false ↦ a ∷ unescape_bytes (b ∷ c ∷ d ∷ s)
]
unescape_bytes (a ∷ s) = a ∷ unescape_bytes s
unescape_bytes [] = []

unfoldable pub unescape_mount_field : Bytes → Bytes
unfolding unescape_bytes from_utf8_lossy
unescape_mount_field field =
    if any (λ c. c == b'\\') field then from_utf8_lossy (unescape_bytes field) else field

abbrev pub mem : Bytes → List Bytes → Bool
mem s ss = any (λ t. eqb t s) ss

unfoldable pub fs_type_allowed : Bytes → List Bytes → List Bytes → Bool
fs_type_allowed fs configured defaults =
    if is_empty configured then mem fs defaults else mem fs configured

abbrev default_fs_types : List Bytes
default_fs_types = map codes (
    "ext4" ∷ "ext3" ∷ "ext2" ∷ "xfs" ∷ "btrfs" ∷ "zfs" ∷ "vfat" ∷ "exfat" ∷ "ntfs" ∷ "ntfs3"
    ∷ "f2fs" ∷ [])

-- A line of /proc/mounts: the device, the mount point, the type.
unfoldable pub mount_of : List Bytes → Bytes → Option MountInfo
unfolding split_whitespace fs_type_allowed unescape_mount_field
mount_of fs_types line = elim (split_whitespace line) [
  | device ∷ mount_point ∷ fs ∷ _ ↦
      if fs_type_allowed fs fs_types default_fs_types
      then some (record {
        device = unescape_mount_field device;
        mount_point = unescape_mount_field mount_point;
      })
      else none
  | _ ↦ none
]

unfoldable pub mounts_of : List Bytes → List Bytes → List MountInfo
unfolding mount_of
mounts_of fs_types [] = []
mounts_of fs_types (line ∷ ls) = elim (mount_of fs_types line) [
  | none ↦ mounts_of fs_types ls
  | some m ↦ m ∷ mounts_of fs_types ls
]

abbrev pub depth : MountInfo → ℕ
depth m = length m.mount_point

-- `sort_by_key`, which is stable: a mount stands before the others of its length.
unfoldable pub place : MountInfo → List MountInfo → List MountInfo
place m [] = m ∷ []
place m (x ∷ xs) = if leb (depth m) (depth x) then m ∷ x ∷ xs else x ∷ place m xs

unfoldable pub sort_mounts : List MountInfo → List MountInfo
unfolding place
sort_mounts [] = []
sort_mounts (m ∷ ms) = place m (sort_mounts ms)

-- `retain`: the first mount of every device.
unfoldable pub first_mounts : List Bytes → List MountInfo → List MountInfo
first_mounts seen [] = []
first_mounts seen (m ∷ ms) =
    if mem m.device seen then first_mounts seen ms else m ∷ first_mounts (m.device ∷ seen) ms

unfoldable pub parse_mounts : Bytes → List Bytes → List MountInfo
unfolding lines mounts_of sort_mounts first_mounts
parse_mounts buf fs_types = first_mounts [] (sort_mounts (mounts_of fs_types (lines buf)))
