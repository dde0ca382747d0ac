-- ===== src/Multiline/Record.antt =====
-- src/logs/multiline.rs: the record in flight, and how a line is committed to it.
use witness.Prelude.{
  ℕ, ◌+◌, Bool, true, false, not, ◌&&◌, Option, none, some, [], ◌∷◌, ◌++◌, ltb, if◌then◌else◌,
  is_empty,
}
use witness.Prelude.Str.{Bytes}
use witness.Std.Trim.{trim}
use witness.Utf8.{truncate_to}
use witness.Crates.{Crates}
use witness.Sink.{Sink, try_log_with_service}
use witness.Structured.Classify.{FileParseOpts}
use witness.Watcher.State.{Aggregator, TailedFile}
use witness.Watcher.Lines.{normalize_line, complete, entry_of}

-- The compiled start pattern is the test that it makes.
pub record MultilineOpts : Type 0 where
  pub pattern : Bytes → Bool
  pub timeout : ℕ
  pub max_bytes : ℕ

-- `MultilineOpts::new`, over the compiler of patterns.
pub new : (Bytes → Option (Bytes → Bool)) → Bytes → ℕ → ℕ → Option MultilineOpts
new compile pattern timeout max_bytes = elim (compile pattern) [
  | none ↦ none
  | some p ↦ some (record { pattern = p; timeout = timeout; max_bytes = max_bytes })
]

unfoldable pub new_aggregator : ℕ → Aggregator
new_aggregator pos = record {
  joined = [];
  record_bytes = 0;
  read_ahead = pos;
  partial_bytes = 0;
  last_append = none;
}

abbrev pub has_record : Aggregator → Bool
has_record a = ltb 0 a.record_bytes

unfoldable pub clear_record : Aggregator → Aggregator
clear_record a = record a { joined = []; record_bytes = 0; last_append = none }

abbrev pub joined_with : Bytes → Bytes → Bytes
joined_with [] line = line
joined_with (c ∷ cs) line = (c ∷ cs) ++ b'\n' ∷ line

unfoldable pub append_to_record : Aggregator → Bytes → ℕ → ℕ → Aggregator
unfolding truncate_to
append_to_record a line line_span max_bytes = record a {
  joined = truncate_to max_bytes (joined_with a.joined line);
  record_bytes = a.record_bytes + line_span;
}

abbrev pub agg_or_new : ℕ → Option Aggregator → Aggregator
agg_or_new pos none = new_aggregator pos
agg_or_new pos (some a) = a

unfoldable pub ensure_agg : TailedFile → TailedFile
unfolding new_aggregator
ensure_agg t = record t { agg = some (agg_or_new t.pos t.agg) }

abbrev pub reset_agg : ℕ → Option Aggregator → Option Aggregator
reset_agg pos none = none
reset_agg pos (some a) = some (new_aggregator pos)

unfoldable pub reset : TailedFile → TailedFile
unfolding new_aggregator
reset t = record t { partial = []; agg = reset_agg t.pos t.agg }

-- The outcome of committing a line.
pub data Commit : Type 0 where
  ok : Commit
  refused : Commit

abbrev pub is_start : MultilineOpts → Bytes → Bool
is_start ml line = not (is_empty line) && ml.pattern line

abbrev pub partial_bytes_of : Option Aggregator → ℕ
partial_bytes_of none = 0
partial_bytes_of (some a) = a.partial_bytes

abbrev pub agg_has_record : Option Aggregator → Bool
agg_has_record none = false
agg_has_record (some a) = has_record a

-- Behind the flush: a line of `span` bytes on disk, `n` of them read now, is appended.
abbrev pub appended : MultilineOpts → Aggregator → Bytes → ℕ → ℕ → ℕ → Aggregator
appended ml a line span n now =
    record (append_to_record (record a { read_ahead = a.read_ahead + n; partial_bytes = 0 }) line
      span ml.max_bytes) { last_append = some now }

-- Ship a record that is there: the file whose record was shipped.
abbrev pub shipped_file : Aggregator → TailedFile → TailedFile
shipped_file a t = record t { pos = t.pos + a.record_bytes; agg = some (clear_record a) }

module _ (crates : Crates) (opts : FileParseOpts) where
  open crates use {Value}

  unfoldable pub ship_record :
      Bytes → Aggregator → TailedFile → Sink Value → Bool × TailedFile × Sink Value
  ship_record [] a t sink = (true, shipped_file a t, sink)
  ship_record (_ ∷ _) a t sink =
      let (sent, sink') = try_log_with_service sink (entry_of crates opts a.joined) in
      (sent, if sent then shipped_file a t else t, sink')

  unfoldable pub ship_agg :
      Option Aggregator → TailedFile → Sink Value → Bool × TailedFile × Sink Value
  unfolding ship_record trim clear_record
  ship_agg none t sink = (true, t, sink)
  ship_agg (some a) t sink =
      if has_record a then ship_record (trim a.joined) a t sink else (true, t, sink)

  unfoldable pub ship : TailedFile → Sink Value → Bool × TailedFile × Sink Value
  unfolding ship_agg
  ship t sink = ship_agg t.agg t sink

  module _ (ml : MultilineOpts) where
    unfoldable pub commit_to :
        Option Aggregator
        → Bytes
        → ℕ
        → ℕ
        → ℕ
        → TailedFile
        → Sink Value
        → Commit × TailedFile × Sink Value
    commit_to none line span n now t sink = (refused, t, sink)
    commit_to (some a) line span n now t sink =
        (ok, record t { partial = []; agg = some (appended ml a line span n now) }, sink)

    abbrev pub commit_after :
        Bytes → ℕ → ℕ → ℕ → Bool × TailedFile × Sink Value → Commit × TailedFile × Sink Value
    commit_after line span n now (false, t, sink) = (refused, t, sink)
    commit_after line span n now (true, t, sink) = commit_to t.agg line span n now t sink

    -- A start line flushes the record before it.
    unfoldable pub flush_before : Bytes → TailedFile → Sink Value → Bool × TailedFile × Sink Value
    unfolding ship
    flush_before line t sink =
        if is_start ml line && agg_has_record t.agg then ship t sink else (true, t, sink)

    unfoldable pub commit_line :
        TailedFile → Bytes → ℕ → ℕ → Sink Value → Commit × TailedFile × Sink Value
    unfolding flush_before commit_to append_to_record normalize_line
    commit_line t bytes n now sink =
        let line = normalize_line (complete crates t.partial bytes) in
        commit_after line (partial_bytes_of t.agg + n) n now (flush_before line t sink)
