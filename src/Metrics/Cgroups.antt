-- ===== src/Metrics/Cgroups.antt =====
-- src/metrics/linux/cgroups.rs: the processor time of the control group.
use witness.Prelude.{ℕ, ◌-◌, Option, none, some, List, [], ◌∷◌, if◌then◌else◌}
use witness.Prelude.Str.{Bytes, codes, eqb}
use Prim.Native.String.{String}
use witness.Std.Split.{lines, split_whitespace}
use witness.Std.Number.{parse_uint, u64}
use witness.Metrics.{Floats, counter, Metric}

pub record CpuStats : Type 0 where
  pub usage_usec : ℕ
  pub user_usec : ℕ
  pub system_usec : ℕ
  pub throttled_usec : ℕ
  pub nr_throttled : ℕ

abbrev pub no_stats : CpuStats
no_stats = record {
  usage_usec = 0;
  user_usec = 0;
  system_usec = 0;
  throttled_usec = 0;
  nr_throttled = 0;
}

abbrev set_stat : Bytes → ℕ → CpuStats → CpuStats
set_stat key n s =
    if eqb key (codes "usage_usec")
    then record s { usage_usec = n }
    else if eqb key (codes "user_usec")
    then record s { user_usec = n }
    else if eqb key (codes "system_usec")
    then record s { system_usec = n }
    else if eqb key (codes "throttled_usec")
    then record s { throttled_usec = n }
    else if eqb key (codes "nr_throttled")
    then record s { nr_throttled = n }
    else s

unfoldable pub stat_line : Bytes → CpuStats → CpuStats
unfolding split_whitespace parse_uint eqb
stat_line line s = elim (split_whitespace line) [
  | key ∷ w ∷ _ ↦ elim (parse_uint u64 w) [ none ↦ s | some n ↦ set_stat key n s ]
  | _ ↦ s
]

unfoldable pub stat_lines : List Bytes → CpuStats → CpuStats
unfolding stat_line
stat_lines [] s = s
stat_lines (line ∷ ls) s = stat_lines ls (stat_line line s)

unfoldable pub parse_cpu_stat : Bytes → CpuStats
unfolding stat_lines lines
parse_cpu_stat buf = stat_lines (lines buf) no_stats

module _ (floats : Floats) where
  open floats use {F64}

  abbrev metric : String → ℕ → Metric F64
  metric name n = record { kind = counter; name = codes name; value = floats.of_u64 n; labels = [] }

  abbrev stat_deltas : Option CpuStats → CpuStats → List (Metric F64)
  stat_deltas none c = []
  stat_deltas (some p) c =
      metric "system.cgroup.cpu.usage_usec" (c.usage_usec - p.usage_usec)
      ∷ metric "system.cgroup.cpu.user_usec" (c.user_usec - p.user_usec)
      ∷ metric "system.cgroup.cpu.system_usec" (c.system_usec - p.system_usec)
      ∷ metric "system.cgroup.cpu.throttled_usec" (c.throttled_usec - p.throttled_usec)
      ∷ metric "system.cgroup.cpu.nr_throttled" (c.nr_throttled - p.nr_throttled)
      ∷ []

  -- The first part of `collect`: the file's text, or the failure to read it.
  unfoldable pub collect_cpu_stat :
      Option Bytes → Option CpuStats → List (Metric F64) × Option CpuStats
  unfolding parse_cpu_stat
  collect_cpu_stat none prev = ([], prev)
  collect_cpu_stat (some buf) prev =
      (stat_deltas prev (parse_cpu_stat buf), some (parse_cpu_stat buf))
