-- ===== src/Metrics/Disk.antt =====
-- src/metrics/linux/disk.rs: the counters of /proc/diskstats, and the mounts.
use witness.Prelude.{
  ℕ, ◌-◌, ◌||◌, Option, none, some, List, [], ◌∷◌, ◌++◌, ltb, if◌then◌else◌, option_or, drop,
}
use witness.Prelude.Str.{Bytes, codes}
use Prim.Native.String.{String}
use witness.Assoc.{Assoc, bytes_key, lookup, insert}
use witness.Std.Split.{lines, split_whitespace}
use witness.Std.Number.{parse_uint, u64}
use witness.Metrics.{Floats, counter, checkpoint, Kind, Metric}
use witness.Metrics.Filter.{Globs, DeviceFilter, allows}

pub record DiskStats : Type 0 where
  pub reads_completed : ℕ
  pub sectors_read : ℕ
  pub writes_completed : ℕ
  pub sectors_written : ℕ

pub record MountInfo : Type 0 where
  pub device : Bytes
  pub mount_point : Bytes

-- The field's number, or 0.
abbrev number_or : Bytes → ℕ
number_or w = option_or (parse_uint u64 w) 0

-- Eleven fields behind the name.
abbrev stats_of : List Bytes → Option DiskStats
stats_of (a ∷ _ ∷ b ∷ _ ∷ c ∷ _ ∷ d ∷ _ ∷ _ ∷ _ ∷ _ ∷ _) = some (record {
  reads_completed = number_or a;
  sectors_read = number_or b;
  writes_completed = number_or c;
  sectors_written = number_or d;
})
stats_of _ = none

module _ (globs : Globs) (floats : Floats) where
  open floats use {F64}

  abbrev sectors : ℕ → F64
  sectors n = floats.times (floats.of_u64 n) (floats.of_u64 512)

  abbrev metric : Kind → String → F64 → Bytes → Metric F64
  metric kind name x device = record {
    kind = kind;
    name = codes name;
    value = x;
    labels = (codes "device", device) ∷ [];
  }

  -- Nothing is sent when nothing happened. `n as f64 * 512.0 > 0.0` is `n > 0`.
  unfoldable pub disk_deltas : Bytes → DiskStats → DiskStats → List (Metric F64)
  disk_deltas device p c =
      let dr = c.sectors_read - p.sectors_read in
      let dw = c.sectors_written - p.sectors_written in
      let dro = c.reads_completed - p.reads_completed in
      let dwo = c.writes_completed - p.writes_completed in
      if ltb 0 dr || ltb 0 dw || ltb 0 dro || ltb 0 dwo
      then metric counter "system.disk.read_bytes" (sectors dr) device
        ∷ metric counter "system.disk.write_bytes" (sectors dw) device
        ∷ metric counter "system.disk.read_ops" (floats.of_u64 dro) device
        ∷ metric counter "system.disk.write_ops" (floats.of_u64 dwo) device
        ∷ []
      else []

  unfoldable pub disk_sample : DeviceFilter globs → Bytes → Option (Bytes × DiskStats)
  unfolding split_whitespace allows parse_uint
  disk_sample filter line = elim (drop 2 (split_whitespace line)) [
    | [] ↦ none
    | name ∷ fields ↦
        if allows globs filter name
        then elim (stats_of fields) [ none ↦ none | some current ↦ some (name, current) ]
        else none
  ]

  unfoldable pub disk_line :
      DeviceFilter globs → Bytes → Assoc Bytes DiskStats → List (Metric F64) × Assoc Bytes DiskStats
  unfolding disk_sample lookup insert disk_deltas
  disk_line filter line prev = elim (disk_sample filter line) [
    | none ↦ ([], prev)
    | some (name, current) ↦ elim (lookup name prev) [
      | none ↦ ([], insert name current prev)
      | some p ↦ (disk_deltas name p current, insert name current prev)
    ]
  ]

  unfoldable pub disk_lines :
      DeviceFilter globs
      → List Bytes
      → Assoc Bytes DiskStats
      → List (Metric F64) × Assoc Bytes DiskStats
  unfolding disk_line
  disk_lines filter [] prev = ([], prev)
  disk_lines filter (line ∷ ls) prev =
      let (sent, prev') = disk_line filter line prev in
      let (sent', prev'') = disk_lines filter ls prev' in (sent ++ sent', prev'')

  unfoldable pub collect_diskstats :
      DeviceFilter globs → Bytes → Assoc Bytes DiskStats → List (Metric F64) × Assoc Bytes DiskStats
  unfolding disk_lines lines
  collect_diskstats filter buf prev = disk_lines filter (lines buf) prev

  abbrev disk_totals : Bytes → DiskStats → List (Metric F64)
  disk_totals device s =
      metric checkpoint "system.disk.read_bytes" (sectors s.sectors_read) device
      ∷ metric checkpoint "system.disk.write_bytes" (sectors s.sectors_written) device
      ∷ metric checkpoint "system.disk.read_ops" (floats.of_u64 s.reads_completed) device
      ∷ metric checkpoint "system.disk.write_ops" (floats.of_u64 s.writes_completed) device
      ∷ []

  unfoldable pub checkpoint_disk : Assoc Bytes DiskStats → List (Metric F64)
  checkpoint_disk [] = []
  checkpoint_disk ((device, s) ∷ m) = disk_totals device s ++ checkpoint_disk m
