-- ===== src/Metrics/Tcp.antt =====
-- src/metrics/linux/tcp.rs: the states of the connections.
pub mod Totals
use witness.Prelude.{
  ℕ, zero, suc, ◌+◌, ◌-◌, ◌*◌, ◌%◌, true, false, Option, none, some, List, [], ◌∷◌, ltb, ◌==◌,
  if◌then◌else◌, option_or, drop, get_elem?,
}
use witness.Prelude.Str.{Bytes, codes, within}
use Prim.Native.String.{String}
use witness.Std.Split.{lines, split_whitespace}
use witness.Std.Number.{u32}
use witness.Metrics.{Floats, gauge, Metric, Procfs}

abbrev hex_value : ℕ → Option ℕ
hex_value c =
    if within b'0' b'9' c
    then some (c - b'0')
    else if within b'a' b'f' c
    then some (c - b'a' + 10)
    else if within b'A' b'F' c
    then some (c - b'A' + 10)
    else none

hex_onto : ℕ → Bytes → Option ℕ
hex_onto n [] = some n
hex_onto n (c ∷ cs) = elim (hex_value c) [
  | none ↦ none
  | some d ↦ elim (ltb (n * 16 + d) 256) [ true ↦ hex_onto (n * 16 + d) cs | false ↦ none ]
]

abbrev hex_digits : Bytes → Option ℕ
hex_digits [] = none
hex_digits (c ∷ cs) = hex_onto 0 (c ∷ cs)

-- `u8::from_str_radix(_, 16)`.
unfoldable pub parse_hex : Bytes → Option ℕ
unfolding hex_onto
parse_hex [] = none
parse_hex (c ∷ cs) = if c == b'+' then hex_digits cs else hex_digits (c ∷ cs)

-- `counts[i] += 1` on `u32`, where there is a count.
unfoldable pub count_up : ℕ → List ℕ → List ℕ
count_up i [] = []
count_up zero (n ∷ ns) = (n + 1) % u32 ∷ ns
count_up (suc i) (n ∷ ns) = n ∷ count_up i ns

-- The fourth field.
unfoldable pub count_line : Bytes → List ℕ → List ℕ
unfolding split_whitespace parse_hex count_up
count_line line counts = elim (get_elem? (split_whitespace line) 3) [
  | none ↦ counts
  | some st ↦ elim (parse_hex st) [ none ↦ counts | some state ↦ count_up state counts ]
]

unfoldable pub count_lines : List Bytes → List ℕ → List ℕ
unfolding count_line
count_lines [] counts = counts
count_lines (line ∷ ls) counts = count_lines ls (count_line line counts)

unfoldable pub count_states : Bytes → List ℕ → List ℕ
unfolding lines count_lines
count_states buf counts = count_lines (drop 1 (lines buf)) counts

abbrev state_names : List (ℕ × String)
state_names =
    (1, "established")
    ∷ (2, "syn_sent")
    ∷ (3, "syn_recv")
    ∷ (4, "fin_wait1")
    ∷ (5, "fin_wait2")
    ∷ (6, "time_wait")
    ∷ (7, "close")
    ∷ (8, "close_wait")
    ∷ (9, "last_ack")
    ∷ (10, "listen")
    ∷ (11, "closing")
    ∷ []

abbrev pub no_counts : List ℕ
no_counts = 0 ∷ 0 ∷ 0 ∷ 0 ∷ 0 ∷ 0 ∷ 0 ∷ 0 ∷ 0 ∷ 0 ∷ 0 ∷ 0 ∷ []

module _ (floats : Floats) where
  open floats use {F64}

  abbrev connections : ℕ → String → Metric F64
  connections n name = record {
    kind = gauge;
    name = codes "system.tcp.connections";
    value = floats.of_u64 n;
    labels = (codes "state", codes name) ∷ [];
  }

  unfoldable pub state_gauges : List (ℕ × String) → List ℕ → List (Metric F64)
  state_gauges [] counts = []
  state_gauges ((i, name) ∷ ss) counts =
      let n = option_or (get_elem? counts i) 0 in
      let rest = state_gauges ss counts in if ltb 0 n then connections n name ∷ rest else rest

  abbrev count_file : Option Bytes → List ℕ → List ℕ
  count_file none counts = counts
  count_file (some buf) counts = count_states buf counts

  unfoldable pub collect_tcp : Procfs → List (Metric F64)
  unfolding state_gauges count_states
  collect_tcp read = state_gauges state_names (
      count_file (read (codes "/proc/net/tcp6"))
        (count_file (read (codes "/proc/net/tcp")) no_counts))
