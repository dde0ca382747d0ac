-- ===== src/Metrics/Container/Collect.antt =====
-- src/metrics/linux/container.rs: `collect`, the counters and the gauges of each container.
use Prim.Native.String.{String}
use witness.Prelude.{
  ℕ, ◌+◌, ◌-◌, ◌%◌, Option, none, some, List, [], ◌∷◌, ◌++◌, map, ◌==◌, if◌then◌else◌, any,
}
use witness.Prelude.Str.{Bytes, codes, eqb}
use witness.Assoc.{Assoc, bytes_key, lookup, insert}
use witness.Std.Split.{lines, split_whitespace}
use witness.Std.Number.{parse_uint, u32, u64}
use witness.Std.Trim.{trim}
use witness.Metrics.{Floats, Kind, gauge, counter, Metric, Procfs}
use witness.Metrics.Container.{
  ContainerInfo, CpuPrev, Directories, discovery_interval_ticks, discover_containers,
}

abbrev pub no_counts : CpuPrev
no_counts = record { usage_usec = 0; user_usec = 0; system_usec = 0 }

abbrev set_count : Bytes → ℕ → CpuPrev → CpuPrev
set_count key n s =
    if eqb key (codes "usage_usec")
    then record s { usage_usec = n }
    else if eqb key (codes "user_usec")
    then record s { user_usec = n }
    else if eqb key (codes "system_usec")
    then record s { system_usec = n }
    else s

unfoldable pub cpu_line : Bytes → CpuPrev → CpuPrev
unfolding split_whitespace parse_uint eqb
cpu_line line s = elim (split_whitespace line) [
  | key ∷ w ∷ _ ↦ elim (parse_uint u64 w) [ none ↦ s | some n ↦ set_count key n s ]
  | _ ↦ s
]

unfoldable pub cpu_lines : List Bytes → CpuPrev → CpuPrev
unfolding cpu_line
cpu_lines [] s = s
cpu_lines (line ∷ ls) s = cpu_lines ls (cpu_line line s)

unfoldable pub parse_cpu_stat : Bytes → CpuPrev
unfolding cpu_lines lines
parse_cpu_stat buf = cpu_lines (lines buf) no_counts

abbrev pub labels_of : ContainerInfo → List (Bytes × Bytes)
labels_of c = (codes "container_id", c.short_id) ∷ (codes "runtime", c.runtime) ∷ []

-- The containers that are known, the counters of the last tick, and the ticks, which wrap around.
pub record ContainerCollector : Type 0 where
  pub prev_cpu : Assoc Bytes CpuPrev
  pub containers : List ContainerInfo
  pub tick_count : ℕ

abbrev pub new : ContainerCollector
new = record { prev_cpu = []; containers = []; tick_count = 0 }

-- Only what has been seen stays.
unfoldable pub retain : List Bytes → Assoc Bytes CpuPrev → Assoc Bytes CpuPrev
unfolding eqb
retain seen [] = []
retain seen ((id, p) ∷ m) =
    if any (λ s. eqb s id) seen then (id, p) ∷ retain seen m else retain seen m

-- `parse_f64` is `str::parse::<f64>`.
module _ (floats : Floats) (parse_f64 : Bytes → Option (floats.F64)) (procfs : Procfs) where
  open floats use {F64}

  abbrev pub metric : Kind → String → ContainerInfo → F64 → Metric F64
  metric kind name c v = record { kind = kind; name = codes name; value = v; labels = labels_of c }

  abbrev pub cpu_deltas : ContainerInfo → CpuPrev → CpuPrev → List (Metric F64)
  cpu_deltas c prev current =
      metric counter "system.container.cpu.usage_usec" c
        (floats.of_u64 (current.usage_usec - prev.usage_usec))
      ∷ metric counter "system.container.cpu.user_usec" c
          (floats.of_u64 (current.user_usec - prev.user_usec))
      ∷ metric counter "system.container.cpu.system_usec" c
          (floats.of_u64 (current.system_usec - prev.system_usec))
      ∷ []

  abbrev pub deltas_from : ContainerInfo → Option CpuPrev → CpuPrev → List (Metric F64)
  deltas_from c none current = []
  deltas_from c (some prev) current = cpu_deltas c prev current

  -- What can be read of the container's `cpu.stat` now.
  unfoldable pub cpu_sample : ContainerInfo → Option CpuPrev
  unfolding parse_cpu_stat
  cpu_sample c = elim (procfs (c.cgroup_path ++ codes "/cpu.stat")) [
    | none ↦ none
    | some buf ↦ some (parse_cpu_stat buf)
  ]

  -- The sample is compared with the one before and kept in its place.
  unfoldable pub with_sample :
      ContainerInfo → Option CpuPrev → Assoc Bytes CpuPrev → List (Metric F64) × Assoc Bytes CpuPrev
  unfolding lookup insert
  with_sample c none prev_map = ([], prev_map)
  with_sample c (some current) prev_map =
      (deltas_from c (lookup c.short_id prev_map) current, insert c.short_id current prev_map)

  unfoldable pub collect_cpu :
      ContainerInfo → Assoc Bytes CpuPrev → List (Metric F64) × Assoc Bytes CpuPrev
  unfolding cpu_sample with_sample
  collect_cpu c prev_map = with_sample c (cpu_sample c) prev_map

  abbrev gauge_of : String → ContainerInfo → Option F64 → List (Metric F64)
  gauge_of name c none = []
  gauge_of name c (some v) = metric gauge name c v ∷ []

  unfoldable pub collect_memory_current : ContainerInfo → List (Metric F64)
  unfolding trim
  collect_memory_current c = elim (procfs (c.cgroup_path ++ codes "/memory.current")) [
    | none ↦ []
    | some buf ↦ gauge_of "system.container.memory.usage" c (parse_f64 (trim buf))
  ]

  unfoldable pub collect_memory_limit : ContainerInfo → List (Metric F64)
  unfolding trim eqb
  collect_memory_limit c = elim (procfs (c.cgroup_path ++ codes "/memory.max")) [
    | none ↦ []
    | some buf ↦
        if eqb (trim buf) (codes "max")
        then []
        else gauge_of "system.container.memory.limit" c (parse_f64 (trim buf))
  ]

  abbrev memory_gauge : Bytes → ContainerInfo → F64 → List (Metric F64)
  memory_gauge key c v =
      if eqb key (codes "anon")
      then metric gauge "system.container.memory.anon" c v ∷ []
      else if eqb key (codes "file")
      then metric gauge "system.container.memory.file" c v ∷ []
      else []

  unfoldable pub memory_line : ContainerInfo → Bytes → List (Metric F64)
  unfolding split_whitespace eqb
  memory_line c line = elim (split_whitespace line) [
    | key ∷ w ∷ _ ↦ elim (parse_f64 w) [ none ↦ [] | some v ↦ memory_gauge key c v ]
    | _ ↦ []
  ]

  unfoldable pub memory_lines : ContainerInfo → List Bytes → List (Metric F64)
  unfolding memory_line
  memory_lines c [] = []
  memory_lines c (line ∷ ls) = memory_line c line ++ memory_lines c ls

  unfoldable pub collect_memory_stat : ContainerInfo → List (Metric F64)
  unfolding memory_lines lines
  collect_memory_stat c = elim (procfs (c.cgroup_path ++ codes "/memory.stat")) [
    | none ↦ []
    | some buf ↦ memory_lines c (lines buf)
  ]

  unfoldable pub collect_memory : ContainerInfo → List (Metric F64)
  unfolding collect_memory_current collect_memory_limit collect_memory_stat
  collect_memory c = collect_memory_current c ++ collect_memory_limit c ++ collect_memory_stat c

  unfoldable pub collect_all :
      List ContainerInfo → Assoc Bytes CpuPrev → List (Metric F64) × Assoc Bytes CpuPrev
  unfolding collect_cpu collect_memory
  collect_all [] prev_map = ([], prev_map)
  collect_all (c ∷ cs) prev_map =
      let (cpu, prev_map') = collect_cpu c prev_map in
      let (rest, prev_map'') = collect_all cs prev_map' in
      (cpu ++ collect_memory c ++ rest, prev_map'')

  abbrev pub known : Directories → ContainerCollector → List ContainerInfo
  known dirs s =
      if (s.tick_count % discovery_interval_ticks) == 0
      then discover_containers dirs
      else s.containers

  unfoldable pub collect : Directories → ContainerCollector → List (Metric F64) × ContainerCollector
  unfolding discover_containers collect_all retain
  collect dirs s =
      let containers = known dirs s in
      let (metrics, prev_map) = collect_all containers s.prev_cpu in
      (
        metrics,
        record {
          prev_cpu = retain (map (λ c. c.short_id) containers) prev_map;
          containers = containers;
          tick_count = (s.tick_count + 1) % u32;
        },
      )
