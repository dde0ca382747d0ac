-- ===== src/Metrics/Process.antt =====
-- src/metrics/linux/process.rs: the processes that use most of the processor and of the memory.
pub mod Largest
use Prim.Native.String.{String}
use witness.Prelude.{
  ℕ, ◌+◌, ◌-◌, ◌*◌, ◌/◌, ◌%◌, max, ◌||◌, Option, none, some, List, [], ◌∷◌, ◌++◌, map, ltb, leb,
  ◌==◌, if◌then◌else◌, ==_iff, option_or, length, take, drop, get_elem?, any,
}
use witness.Prelude.Str.{Bytes, codes}
use witness.Assoc.{Assoc, Key, lookup, insert}
use witness.Std.Number.{parse_uint, u32, u64}
use witness.Std.Print.{print}
use witness.Std.Scan.{rfind}
use witness.Std.Split.{split_whitespace}
use witness.Crates.{position}
use witness.Metrics.{Floats, Kind, gauge, Metric, Procfs}
use witness.Metrics.Top.{sort_descending, until_zero}

instance abbrev pub nat_key : Key ℕ
nat_key = record { same = λ a b. a == b; same_iff = ==_iff }

pub record ProcTimes : Type 0 where
  pub utime : ℕ
  pub stime : ℕ

pub record ProcSnapshot : Type 0 where
  pub pid : ℕ
  pub name : Bytes
  pub rss_bytes : ℕ
  pub cpu_delta : ℕ

pub record ParsedProc : Type 0 where
  pub pid : ℕ
  pub name : Bytes
  pub utime : ℕ
  pub stime : ℕ
  pub rss_bytes : ℕ

abbrev times_of : Option ℕ → Option ℕ → Option ℕ → Option (ℕ × ℕ × ℕ)
times_of (some u) (some s) (some r) = some (u, s, r)
times_of (some u) (some s) none = none
times_of (some u) none r = none
times_of none s r = none

abbrev field : List Bytes → ℕ → Option ℕ
field fields i = elim (get_elem? fields i) [ none ↦ none | some w ↦ parse_uint u64 w ]

-- `utime`, `stime` and the pages in memory, among the fields behind the name.
unfoldable pub proc_fields : List Bytes → Option (ℕ × ℕ × ℕ)
unfolding parse_uint
proc_fields fields =
    if ltb (length fields) 22
    then none
    else times_of (field fields 11) (field fields 12) (field fields 21)

-- The name stands between the first `(` and the last `)`. Behind that the kernel writes a space, so
-- the text is cut between characters. The product wraps around.
unfoldable pub parse_proc_stat : Bytes → ℕ → ℕ → Option ParsedProc
unfolding position rfind proc_fields split_whitespace
parse_proc_stat buf pid page_size = elim (position b'(' buf) [
  | none ↦ none
  | some open_at ↦ elim (rfind b')' buf) [
    | none ↦ none
    | some close ↦
        if leb close open_at || leb (length buf) (close + 2)
        then none
        else elim (proc_fields (split_whitespace (drop (close + 2) buf))) [
          | none ↦ none
          | some (utime, stime, rss) ↦ some (record {
            pid = pid;
            name = take (close - (open_at + 1)) (drop (open_at + 1) buf);
            utime = utime;
            stime = stime;
            rss_bytes = (rss * page_size) % u64;
          })
        ]
  ]
]

abbrev total : ℕ → ℕ → ℕ
total utime stime = (utime + stime) % u64

abbrev cpu_delta_of : ParsedProc → Option ProcTimes → ℕ
cpu_delta_of proc none = 0
cpu_delta_of proc (some prev) = total proc.utime proc.stime - total prev.utime prev.stime

-- The samples of one tick, the times that are known, and the processes seen.
pub record Scan : Type 0 where
  pub snapshots : List ProcSnapshot
  pub prev : Assoc ℕ ProcTimes
  pub seen : List ℕ

unfoldable pub add_proc : ParsedProc → Scan → Scan
unfolding lookup insert
add_proc proc s = record {
  snapshots =
      s.snapshots
      ++ record {
        pid = proc.pid;
        name = proc.name;
        rss_bytes = proc.rss_bytes;
        cpu_delta = cpu_delta_of proc (lookup proc.pid s.prev);
      }
        ∷ [];
  prev = insert proc.pid (record { utime = proc.utime; stime = proc.stime }) s.prev;
  seen = proc.pid ∷ s.seen;
}

abbrev stat_path : ℕ → Bytes
stat_path pid = codes "/proc/" ++ print pid ++ codes "/stat"

-- One entry of /proc: nothing unless its name is a number and its file can be read and parsed.
unfoldable pub proc_of : Procfs → ℕ → Bytes → Option ParsedProc
unfolding parse_uint parse_proc_stat print
proc_of procfs page_size file_name = elim (parse_uint u32 file_name) [
  | none ↦ none
  | some pid ↦ elim (procfs (stat_path pid)) [
    | none ↦ none
    | some buf ↦ parse_proc_stat buf pid page_size
  ]
]

unfoldable pub scan_procs : Procfs → ℕ → List Bytes → Scan → Scan
unfolding proc_of add_proc
scan_procs procfs page_size [] s = s
scan_procs procfs page_size (n ∷ ns) s =
    scan_procs procfs page_size ns
      (elim (proc_of procfs page_size n) [ none ↦ s | some proc ↦ add_proc proc s ])

unfoldable pub retain : List ℕ → Assoc ℕ ProcTimes → Assoc ℕ ProcTimes
retain seen [] = []
retain seen ((pid, t) ∷ m) =
    if any (λ p. p == pid) seen then (pid, t) ∷ retain seen m else retain seen m

abbrev pub delta_key : ProcSnapshot → ℕ
delta_key s = s.cpu_delta

abbrev pub rss_key : ProcSnapshot → ℕ
rss_key s = s.rss_bytes

module _ (floats : Floats) where
  open floats use {F64}

  -- The options and the state of the collector; instants are nanoseconds.
  pub record ProcessCollector : Type 0 where
    pub top_n : ℕ
    pub prev : Assoc ℕ ProcTimes
    pub page_size : ℕ
    pub clk_tck : F64
    pub last_collect : Option ℕ

  -- `sysconf` gives the size of a page and the clock ticks of a second, if that is a positive number.
  abbrev pub new : ℕ → ℕ → Option ℕ → ProcessCollector
  new top_n page_size clk_tck = record {
    top_n = max top_n 1;
    prev = [];
    page_size = page_size;
    clk_tck = floats.of_u64 (option_or clk_tck 100);
    last_collect = none;
  }

  abbrev seconds_f64 : ℕ → F64
  seconds_f64 ns =
      floats.add (floats.of_u64 (ns / 1000000000))
        (floats.divide (floats.of_u64 (ns % 1000000000)) (floats.of_u64 1000000000))

  abbrev elapsed_since : ℕ → Option ℕ → F64
  elapsed_since now none = floats.of_u64 0
  elapsed_since now (some t) = seconds_f64 (now - t)

  abbrev pub metric : String → F64 → ProcSnapshot → Metric F64
  metric name v p = record {
    kind = gauge;
    name = codes name;
    value = v;
    labels = (codes "pid", print p.pid) ∷ (codes "name", p.name) ∷ [];
  }

  abbrev pub cpu_metric : F64 → F64 → ProcSnapshot → Metric F64
  cpu_metric clk_tck elapsed p =
      metric "system.process.cpu_percent"
        (floats.times (floats.divide (floats.divide (floats.of_u64 p.cpu_delta) clk_tck) elapsed)
          (floats.of_u64 100))
        p

  abbrev pub rss_metric : ProcSnapshot → Metric F64
  rss_metric p = metric "system.process.memory_rss" (floats.of_u64 p.rss_bytes) p

  -- What is sent for the samples of a tick.
  unfoldable pub report : ℕ → F64 → F64 → List ProcSnapshot → List (Metric F64)
  unfolding sort_descending until_zero print
  report top_n clk_tck elapsed snapshots =
      let by_cpu = sort_descending delta_key snapshots in
      let by_rss = sort_descending rss_key by_cpu in
      (if floats.less (floats.of_u64 0) elapsed
        then map (cpu_metric clk_tck elapsed) (until_zero delta_key (take top_n by_cpu))
        else [])
      ++ map rss_metric (until_zero rss_key (take top_n by_rss))

  -- `entries` are the names in /proc, or the failure to list them.
  unfoldable pub collect :
      Procfs → Option (List Bytes) → ℕ → ProcessCollector → List (Metric F64) × ProcessCollector
  unfolding scan_procs retain report
  collect procfs none now c = ([], c)
  collect procfs (some entries) now c =
      let s =
        scan_procs procfs c.page_size entries
          (record { snapshots = []; prev = c.prev; seen = [] }) in
      (
        report c.top_n c.clk_tck (elapsed_since now c.last_collect) s.snapshots,
        record c { prev = retain s.seen s.prev; last_collect = some now },
      )
