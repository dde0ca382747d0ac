-- ===== src/Metrics/Container.antt =====
-- src/metrics/linux/container.rs: the containers whose control groups are found, and what is sent for
pub mod Collect
pub mod Deltas
-- them. What the directories hold is an argument.
use witness.Prelude.{
  ℕ, zero, suc, ◌-◌, Bool, not, ◌&&◌, Option, none, some, List, [], ◌∷◌, ◌++◌, ◌==◌, if◌then◌else◌,
  is_some, length, take, all,
}
use witness.Prelude.Str.{Bytes, codes, strip_prefix, is_ascii_hexdigit}
use witness.Assoc.{bytes_key}
use witness.Config.{strip_suffix}
use witness.Std.Scan.{find}

pub record ContainerInfo : Type 0 where
  pub short_id : Bytes
  pub runtime : Bytes
  pub cgroup_path : Bytes

pub record CpuPrev : Type 0 where
  pub usage_usec : ℕ
  pub user_usec : ℕ
  pub system_usec : ℕ

abbrev pub discovery_interval_ticks : ℕ
discovery_interval_ticks = 4

abbrev max_depth : ℕ
max_depth = 5

-- `read_dir`, with the names of the entries, and `is_dir`.
pub record Directories : Type 0 where
  pub read_dir : Bytes → Option (List Bytes)
  pub is_dir : Bytes → Bool

abbrev join : Bytes → Bytes → Bytes
join dir name = dir ++ codes "/" ++ name

abbrev scope_id : Option Bytes → Option Bytes
scope_id none = none
scope_id (some inner) = strip_suffix (codes ".scope") inner

-- `{prefix}{64 hexadecimal digits}.scope`.
unfoldable pub parse_scope_entry : Bytes → Bytes → Bytes → Bytes → Option ContainerInfo
unfolding strip_prefix strip_suffix
parse_scope_entry name prefix runtime path = elim (scope_id (strip_prefix prefix name)) [
  | none ↦ none
  | some inner ↦
      if length inner == 64 && all is_ascii_hexdigit inner
      then some (record { short_id = take 12 inner; runtime = runtime; cgroup_path = path })
      else none
]

abbrev push : Option ContainerInfo → List ContainerInfo → List ContainerInfo
push none out = out
push (some info) out = out ++ info ∷ []

module _ (dirs : Directories) where
  abbrev entries_of : Bytes → List Bytes
  entries_of dir = elim (dirs.read_dir dir) [ none ↦ [] | some names ↦ names ]

  unfoldable pub scan_scope_dir :
      Bytes → Bytes → Bytes → List Bytes → List ContainerInfo → List ContainerInfo
  unfolding parse_scope_entry
  scan_scope_dir dir prefix runtime [] out = out
  scan_scope_dir dir prefix runtime (name ∷ names) out =
      scan_scope_dir dir prefix runtime names
        (push (parse_scope_entry name prefix runtime (join dir name)) out)

  -- containerd first, then CRI-O.
  unfoldable pub pod_entry : Bytes → Bytes → Option ContainerInfo
  unfolding parse_scope_entry
  pod_entry dir name =
      elim (parse_scope_entry name (codes "cri-containerd-") (codes "containerd") (join dir name)) [
        | some info ↦ some info
        | none ↦ parse_scope_entry name (codes "crio-") (codes "crio") (join dir name)
      ]

  unfoldable pub scan_container_scopes :
      Bytes → List Bytes → List ContainerInfo → List ContainerInfo
  unfolding pod_entry
  scan_container_scopes dir [] out = out
  scan_container_scopes dir (name ∷ names) out =
      scan_container_scopes dir names (push (pod_entry dir name) out)

  unfoldable pub scan_container_scopes_in_dir : Bytes → List ContainerInfo → List ContainerInfo
  unfolding scan_container_scopes
  scan_container_scopes_in_dir dir out = scan_container_scopes dir (entries_of dir) out

  abbrev is_slice : Bytes → Bool
  is_slice name = is_some (strip_suffix (codes ".slice") name)

  abbrev is_pod : Bytes → Bool
  is_pod name = is_some (find (codes "-pod") name) && is_slice name

  unfoldable pub scan_qos : Bytes → List Bytes → List ContainerInfo → List ContainerInfo
  unfolding scan_container_scopes_in_dir find strip_suffix
  scan_qos dir [] out = out
  scan_qos dir (name ∷ names) out = scan_qos dir names (
      if dirs.is_dir (join dir name) && is_pod name
      then scan_container_scopes_in_dir (join dir name) out
      else out)

  unfoldable pub scan_qos_slice : Bytes → List ContainerInfo → List ContainerInfo
  unfolding scan_qos
  scan_qos_slice dir out = scan_qos dir (entries_of dir) out

  unfoldable pub scan_kubepods : Bytes → List Bytes → List ContainerInfo → List ContainerInfo
  unfolding scan_container_scopes_in_dir scan_qos_slice find strip_suffix
  scan_kubepods base [] out = out
  scan_kubepods base (name ∷ names) out =
      let path = join base name in
      scan_kubepods base names (
        if not (dirs.is_dir path)
        then out
        else if is_pod name
        then scan_container_scopes_in_dir path out
        else if is_slice name
        then scan_qos_slice path out
        else out)

  -- The levels below a directory, from the depth that is left: `MAX_DEPTH - depth`.
  unfoldable pub walk_for_libpod : ℕ → Bytes → List Bytes → List ContainerInfo → List ContainerInfo
  unfolding parse_scope_entry
  walk_for_libpod left dir [] out = out
  walk_for_libpod zero dir (name ∷ names) out =
      walk_for_libpod zero dir names
        (push (parse_scope_entry name (codes "libpod-") (codes "podman") (join dir name)) out)
  walk_for_libpod (suc left) dir (name ∷ names) out =
      let path = join dir name in
      let below = walk_for_libpod left path (entries_of path) out in
      walk_for_libpod (suc left) dir names
        (elim (parse_scope_entry name (codes "libpod-") (codes "podman") path) [
          | some info ↦ out ++ info ∷ []
          | none ↦ if dirs.is_dir path then below else out
        ])

  abbrev base_of : Bytes → List Bytes
  base_of base = if dirs.is_dir base then entries_of base else []

  unfoldable pub discover_containers : List ContainerInfo
  unfolding scan_scope_dir scan_kubepods walk_for_libpod
  discover_containers =
      let system = codes "/sys/fs/cgroup/system.slice" in
      let kubepods = codes "/sys/fs/cgroup/kubepods.slice" in
      let user = codes "/sys/fs/cgroup/user.slice" in
      walk_for_libpod max_depth user (base_of user) (
        scan_kubepods kubepods (base_of kubepods)
          (scan_scope_dir system (codes "docker-") (codes "docker") (entries_of system) []))
