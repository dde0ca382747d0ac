-- ===== src/Metrics/Network.antt =====
-- src/metrics/linux/network.rs: the counters of /proc/net/dev.
pub mod Changes
use witness.Prelude.{ℕ, ◌-◌, Option, none, some, List, [], ◌∷◌, ◌++◌, if◌then◌else◌}
use witness.Prelude.Str.{Bytes, codes}
use Prim.Native.String.{String}
use witness.Assoc.{Assoc, bytes_key, lookup, insert}
use witness.Std.Trim.{trim}
use witness.Std.Split.{lines, split_whitespace, split_once}
use witness.Std.Number.{parse_uint, u64}
use witness.Metrics.{Floats, Kind, counter, checkpoint, Metric, Procfs}
use witness.Metrics.Filter.{Globs, DeviceFilter, allows}

pub record NetStats : Type 0 where
  pub rx_bytes : ℕ
  pub rx_packets : ℕ
  pub rx_errors : ℕ
  pub rx_drops : ℕ
  pub tx_bytes : ℕ
  pub tx_packets : ℕ
  pub tx_errors : ℕ
  pub tx_drops : ℕ

-- The numbers among the fields: a field that is none is passed over.
unfoldable pub numbers : List Bytes → List ℕ
unfolding parse_uint
numbers [] = []
numbers (w ∷ ws) = elim (parse_uint u64 w) [ none ↦ numbers ws | some n ↦ n ∷ numbers ws ]

-- Twelve numbers, of which the middle four are not used.
abbrev stats_of : List ℕ → Option NetStats
stats_of (a ∷ b ∷ c ∷ d ∷ _ ∷ _ ∷ _ ∷ _ ∷ e ∷ f ∷ g ∷ h ∷ _) = some (record {
  rx_bytes = a;
  rx_packets = b;
  rx_errors = c;
  rx_drops = d;
  tx_bytes = e;
  tx_packets = f;
  tx_errors = g;
  tx_drops = h;
})
stats_of _ = none

module _ (globs : Globs) (floats : Floats) where
  open floats use {F64}

  abbrev metric : Kind → String → ℕ → Bytes → Metric F64
  metric kind name n iface = record {
    kind = kind;
    name = codes name;
    value = floats.of_u64 n;
    labels = (codes "interface", iface) ∷ [];
  }

  -- What one interface sends: the differences, which stop at 0.
  unfoldable pub net_deltas : Bytes → NetStats → NetStats → List (Metric F64)
  net_deltas iface p c =
      metric counter "system.net.bytes_recv" (c.rx_bytes - p.rx_bytes) iface
      ∷ metric counter "system.net.bytes_sent" (c.tx_bytes - p.tx_bytes) iface
      ∷ metric counter "system.net.packets_recv" (c.rx_packets - p.rx_packets) iface
      ∷ metric counter "system.net.packets_sent" (c.tx_packets - p.tx_packets) iface
      ∷ metric counter "system.net.errors_recv" (c.rx_errors - p.rx_errors) iface
      ∷ metric counter "system.net.errors_sent" (c.tx_errors - p.tx_errors) iface
      ∷ metric counter "system.net.drops_recv" (c.rx_drops - p.rx_drops) iface
      ∷ metric counter "system.net.drops_sent" (c.tx_drops - p.tx_drops) iface
      ∷ []

  pub record NetworkCollector : Type 0 where
    pub previous : Assoc Bytes NetStats
    pub filter : DeviceFilter globs

  -- The sample of a line, if the interface is reported.
  unfoldable pub net_sample : DeviceFilter globs → Bytes → Option (Bytes × NetStats)
  unfolding split_once trim allows numbers split_whitespace
  net_sample filter line = elim (split_once b':' line) [
    | none ↦ none
    | some (iface, stats) ↦
        if allows globs filter (trim iface)
        then elim (stats_of (numbers (split_whitespace stats))) [
          | none ↦ none
          | some current ↦ some (trim iface, current)
        ]
        else none
  ]

  unfoldable pub net_line :
      DeviceFilter globs → Bytes → Assoc Bytes NetStats → List (Metric F64) × Assoc Bytes NetStats
  unfolding net_sample lookup insert net_deltas
  net_line filter line prev = elim (net_sample filter line) [
    | none ↦ ([], prev)
    | some (iface, current) ↦ elim (lookup iface prev) [
      | none ↦ ([], insert iface current prev)
      | some p ↦ (net_deltas iface p current, insert iface current prev)
    ]
  ]

  unfoldable pub net_lines :
      DeviceFilter globs
      → List Bytes
      → Assoc Bytes NetStats
      → List (Metric F64) × Assoc Bytes NetStats
  unfolding net_line
  net_lines filter [] prev = ([], prev)
  net_lines filter (line ∷ ls) prev =
      let (sent, prev') = net_line filter line prev in
      let (sent', prev'') = net_lines filter ls prev' in (sent ++ sent', prev'')

  unfoldable pub collect_network : Procfs → NetworkCollector → List (Metric F64) × NetworkCollector
  unfolding net_lines lines
  collect_network read s = elim (read (codes "/proc/net/dev")) [
    | none ↦ ([], s)
    | some buf ↦
        let (sent, prev) = net_lines s.filter (lines buf) s.previous in
        (sent, record s { previous = prev })
  ]

  abbrev net_totals : Bytes → NetStats → List (Metric F64)
  net_totals iface s =
      metric checkpoint "system.net.bytes_recv" s.rx_bytes iface
      ∷ metric checkpoint "system.net.bytes_sent" s.tx_bytes iface
      ∷ metric checkpoint "system.net.packets_recv" s.rx_packets iface
      ∷ metric checkpoint "system.net.packets_sent" s.tx_packets iface
      ∷ []

  unfoldable pub checkpoint_network : Assoc Bytes NetStats → List (Metric F64)
  checkpoint_network [] = []
  checkpoint_network ((iface, s) ∷ m) = net_totals iface s ++ checkpoint_network m
