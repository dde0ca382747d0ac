-- ===== src/Metrics/Cpu.antt =====
-- src/metrics/linux/cpu.rs, src/metrics/derived.rs: the shares of the processors' time.
use witness.Prelude.{
  ℕ, ◌+◌, ◌-◌, ◌%◌, Bool, true, false, ◌&&◌, Option, none, some, List, [], ◌∷◌, ◌++◌, ltb, ◌==◌,
  if◌then◌else◌, option_or, get_elem?, all, is_empty,
}
use witness.Prelude.Str.{Bytes, codes, is_ascii_digit, eqb, strip_prefix}
use Prim.Native.String.{String}
use witness.Assoc.{Assoc, bytes_key, lookup, insert}
use witness.Std.Split.{lines, split_whitespace}
use witness.Std.Number.{parse_uint, u64}
use witness.Metrics.{Floats, gauge, Metric, Procfs}

pub record CpuTimes : Type 0 where
  pub user : ℕ
  pub nice : ℕ
  pub system : ℕ
  pub idle : ℕ
  pub iowait : ℕ
  pub irq : ℕ
  pub softirq : ℕ
  pub steal : ℕ

-- `+` on `u64`, as the release build has it.
infix 60 ◌+%◌
abbrev pub ◌+%◌ : ℕ → ℕ → ℕ
a +% b = (a + b) % u64

unfoldable pub kernel : CpuTimes → ℕ
kernel t = (t.system +% t.irq) +% t.softirq

unfoldable pub total : CpuTimes → ℕ
total t =
    ((((((t.user +% t.nice) +% t.system) +% t.idle) +% t.iowait) +% t.irq) +% t.softirq) +% t.steal

-- `cpu` is `total`, `cpuN` is `N`.
unfoldable pub cpu_label : Bytes → Option Bytes
unfolding strip_prefix
cpu_label name = elim (strip_prefix (codes "cpu") name) [
  | none ↦ none
  | some suffix ↦
      if is_empty suffix
      then some (codes "total")
      else if all is_ascii_digit suffix
      then some suffix
      else none
]

abbrev field : List Bytes → ℕ → ℕ
field ws i = elim (get_elem? ws i) [ none ↦ 0 | some w ↦ option_or (parse_uint u64 w) 0 ]

-- The fields behind the name; a missing one or one that is no number is 0.
unfoldable pub parse_cpu_line : List Bytes → CpuTimes
unfolding parse_uint
parse_cpu_line ws = record {
  user = field ws 0;
  nice = field ws 1;
  system = field ws 2;
  idle = field ws 3;
  iowait = field ws 4;
  irq = field ws 5;
  softirq = field ws 6;
  steal = field ws 7;
}

module _ (floats : Floats) where
  open floats use {F64}

  -- `clamp(0.0, 100.0)`.
  abbrev clamped : F64 → F64
  clamped x =
      if floats.less x (floats.of_u64 0)
      then floats.of_u64 0
      else if floats.less (floats.of_u64 100) x
      then floats.of_u64 100
      else x

  unfoldable pub cpu_busy_percent : F64 → Option F64
  cpu_busy_percent idle =
      if floats.is_finite idle
      then some (clamped (floats.subtract (floats.of_u64 100) idle))
      else none

  -- The share of an interval of `dt`, in percent.
  abbrev share : ℕ → ℕ → ℕ → F64
  share dt cur old =
      floats.times (floats.divide (floats.of_u64 (cur - old)) (floats.of_u64 dt))
        (floats.of_u64 100)

  abbrev metric : String → F64 → Bytes → Metric F64
  metric name x core = record {
    kind = gauge;
    name = codes name;
    value = x;
    labels = (codes "core", core) ∷ [];
  }

  abbrev busy_of : Option F64 → Bytes → List (Metric F64)
  busy_of none core = []
  busy_of (some x) core = metric "system.cpu.busy_percent" x core ∷ []

  unfoldable pub cpu_deltas : Bytes → CpuTimes → CpuTimes → List (Metric F64)
  unfolding total kernel cpu_busy_percent eqb
  cpu_deltas core p c =
      let dt = total c - total p in
      let idle = share dt c.idle p.idle in
      if dt == 0
      then []
      else metric "system.cpu.user" (share dt (c.user +% c.nice) (p.user +% p.nice)) core
        ∷ metric "system.cpu.system" (share dt (kernel c) (kernel p)) core
        ∷ metric "system.cpu.idle" idle core
        ∷ metric "system.cpu.iowait" (share dt c.iowait p.iowait) core
        ∷ metric "system.cpu.steal" (share dt c.steal p.steal) core
        ∷ (if eqb core (codes "total") then busy_of (cpu_busy_percent idle) core else [])

  -- What the loop over the lines carries.
  pub record CpuScan : Type 0 where
    pub previous : Assoc Bytes CpuTimes
    pub cores : ℕ
    pub had_baseline : Bool

  abbrev more_cores : Bytes → ℕ → ℕ
  more_cores label n = if eqb label (codes "total") then n else n + 1

  unfoldable pub cpu_row : Bytes → Bytes → List Bytes → CpuScan → List (Metric F64) × CpuScan
  unfolding parse_cpu_line lookup insert cpu_deltas eqb
  cpu_row label name fields s =
      let current = parse_cpu_line fields in
      elim (lookup name s.previous) [
        | none ↦ (
          [],
          record s { previous = insert name current s.previous; cores = more_cores label s.cores },
        )
        | some p ↦ (
          cpu_deltas label p current,
          record {
            previous = insert name current s.previous;
            cores = more_cores label s.cores;
            had_baseline = true;
          },
        )
      ]

  unfoldable pub cpu_line : Bytes → CpuScan → List (Metric F64) × CpuScan
  unfolding cpu_label cpu_row split_whitespace
  cpu_line line s = elim (split_whitespace line) [
    | [] ↦ ([], s)
    | name ∷ fields ↦ elim (cpu_label name) [
      | none ↦ ([], s)
      | some label ↦ cpu_row label name fields s
    ]
  ]

  unfoldable pub cpu_lines : List Bytes → CpuScan → List (Metric F64) × CpuScan
  unfolding cpu_line
  cpu_lines [] s = ([], s)
  cpu_lines (line ∷ ls) s =
      let (sent, s') = cpu_line line s in let (sent', s'') = cpu_lines ls s' in (sent ++ sent', s'')

  abbrev cpu_count : CpuScan → List (Metric F64)
  cpu_count s =
      if s.had_baseline && ltb 0 s.cores
      then record {
        kind = gauge;
        name = codes "system.cpu.count";
        value = floats.of_u64 s.cores;
        labels = [];
      }
        ∷ []
      else []

  unfoldable pub collect_cpu :
      Procfs → Assoc Bytes CpuTimes → List (Metric F64) × Assoc Bytes CpuTimes
  unfolding cpu_lines lines
  collect_cpu read prev = elim (read (codes "/proc/stat")) [
    | none ↦ ([], prev)
    | some buf ↦
        let (sent, s) =
          cpu_lines (lines buf) (record { previous = prev; cores = 0; had_baseline = false }) in
        (sent ++ cpu_count s, s.previous)
  ]
