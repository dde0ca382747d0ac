-- ===== src/Tests/Collecting.antt =====
-- Concrete inputs for src/metrics.
use witness.Prelude.{
  ℕ, ◌+◌, ◌-◌, ◌*◌, ◌/◌, ◌≡◌, refl, true, some, List, [], ◌∷◌, ◌++◌, map, ltb, if◌then◌else◌,
  length,
}
use witness.Prelude.Str.{Bytes, codes, eqb}
use witness.Utf8.{is_utf8}
use witness.Std.Trim.{trim}
use witness.Std.Split.{lines, split}
use witness.Assoc.{Assoc, bytes_key, lookup}
use witness.Metrics.{Floats}
use witness.Metrics.Top.{IsTop}
use witness.Metrics.Process.{ProcSnapshot, delta_key, rss_key, cpu_metric, rss_metric, report}
use witness.Metrics.Process.Largest.{report-IsTop}
use witness.Metrics.Filter.{Globs, DeviceFilter}
use witness.Metrics.Network.{NetStats, net_sample, net_lines}
use witness.Metrics.Network.Changes.{only, samples_of, changes, last_of, net_lines_lem}
use witness.Metrics.Tcp.{count_states, no_counts}
use witness.Metrics.Tcp.Totals.{Counted, count_states-Counted}
use witness.Metrics.Derived.{count_cpu_list}
use witness.Metrics.Derived.Bounds.{IsCount, count_cpu_list-IsCount}
use witness.Metrics.Mounts.{parse_mounts, mounts_of, unescape_mount_field}
use witness.Metrics.Mounts.Shortest.{IsShortest, parse_mounts-IsShortest}
use witness.Metrics.Mounts.Escapes.{escape, unescape_mount_field-escape}

abbrev mounts_example : Bytes
mounts_example =
    codes "/dev/sda1 /var/lib/foo ext4 rw 0 0\n/dev/sda1 / ext4 rw 0 0\nproc /proc proc rw 0 0\n"

parse_mounts-IsShortest_example :
    IsShortest [] (mounts_of [] (lines mounts_example)) (parse_mounts mounts_example [])
parse_mounts-IsShortest_example = parse_mounts-IsShortest mounts_example []

is_valid : is_utf8 (codes "/mnt/my disk") ≡ true
unfolding is_utf8
is_valid = refl

unescape_mount_field-escape_example :
    unescape_mount_field (escape (codes "/mnt/my disk")) ≡ codes "/mnt/my disk"
unescape_mount_field-escape_example = unescape_mount_field-escape (codes "/mnt/my disk") is_valid

count_cpu_list-IsCount_example :
    IsCount (length (split b',' (trim (codes "0-3,8\n")))) (count_cpu_list (codes "0-3,8\n"))
count_cpu_list-IsCount_example = count_cpu_list-IsCount (codes "0-3,8\n")

-- Patterns without wildcards.
abbrev globs_example : Globs
globs_example = record { Pattern = Bytes; pattern = some; pattern_matches = eqb }

-- Whole numbers in place of floats.
abbrev pub floats_example : Floats
floats_example = record {
  F64 = ℕ;
  of_u64 = λ n. n;
  add = λ a b. a + b;
  subtract = λ a b. a - b;
  times = λ a b. a * b;
  divide = λ a b. a / b;
  is_finite = λ a. true;
  less = ltb;
}

abbrev no_loopback : DeviceFilter globs_example
no_loopback = record { includes = []; excludes = codes "lo" ∷ [] }

abbrev table_example : Bytes
table_example =
    codes
      "Inter-| face\n  lo: 1 1 0 0 0 0 0 0 1 1 0 0 0 0 0 0\neth0: 100 2 0 0 0 0 0 0 50 1 0 0 0 0 0 0\n"

-- The interface has one sample, and the loopback none.
one_sample :
    map
      (λ s. s.rx_bytes)
      (samples_of globs_example floats_example no_loopback (codes "eth0") (lines table_example))
    ≡ 100 ∷ []
unfolding net_sample lines eqb
one_sample = refl

abbrev zero_stats : NetStats
zero_stats = record {
  rx_bytes = 0;
  rx_packets = 0;
  rx_errors = 0;
  rx_drops = 0;
  tx_bytes = 0;
  tx_packets = 0;
  tx_errors = 0;
  tx_drops = 0;
}

abbrev stored_example : Assoc Bytes NetStats
stored_example = (codes "eth0", zero_stats) ∷ []

net_lines_lem_example :
    (let o =
        net_lines globs_example floats_example no_loopback (lines table_example) stored_example in
      (only globs_example floats_example (codes "eth0") o.0
        ≡ changes globs_example floats_example
            (codes "eth0")
            (lookup (codes "eth0") stored_example)
            (samples_of globs_example floats_example no_loopback
              (codes "eth0")
              (lines table_example)))
      × (lookup (codes "eth0") o.1
          ≡ last_of globs_example floats_example (lookup (codes "eth0") stored_example) (
              samples_of globs_example floats_example no_loopback
                (codes "eth0")
                (lines table_example))))
net_lines_lem_example =
    net_lines_lem globs_example floats_example no_loopback (codes "eth0") (lines table_example)
      stored_example

abbrev tcp_example : Bytes
tcp_example = codes "  sl  local rem st\n   0: 0100007F:0CEA 00000000:0000 0A 0\n"

count_states-Counted_example :
    Counted (length (lines tcp_example) - 1) no_counts (count_states tcp_example no_counts)
count_states-Counted_example = count_states-Counted tcp_example no_counts

abbrev snapshots_example : List ProcSnapshot
snapshots_example =
    record { pid = 1; name = codes "init"; rss_bytes = 4096; cpu_delta = 0 }
    ∷ record { pid = 7; name = codes "db"; rss_bytes = 8192; cpu_delta = 30 }
    ∷ record { pid = 9; name = codes "web"; rss_bytes = 0; cpu_delta = 50 }
    ∷ []

report-IsTop_example :
    (busy : List ProcSnapshot) × (large : List ProcSnapshot) × (report floats_example 2 100 15
        snapshots_example
      ≡ (if floats_example.less (floats_example.of_u64 0) 15
          then map (cpu_metric floats_example 100 15) busy
          else [])
        ++ map (rss_metric floats_example) large)
    × IsTop delta_key 2 snapshots_example busy
    × IsTop rss_key 2 snapshots_example large
report-IsTop_example = report-IsTop floats_example 2 100 15 snapshots_example
