-- ===== src/Multiline/Loop.antt =====
-- src/logs/multiline.rs: the loop over the lines of a file, live or in a drain, and the flushes.
use witness.Prelude.{
  ℕ, ◌+◌, ◌-◌, true, false, Option, none, some, [], leb, if◌then◌else◌, length, is_empty,
}
use witness.Multiline.Record.{
  MultilineOpts, ok, refused, has_record, append_to_record, ensure_agg, ship, commit_line,
}
use witness.Prelude.Str.{Bytes}
use witness.Text.{Reads, eof, error, got, reads}
use witness.Text.Lines.{ends_line}
use witness.Crates.{Crates}
use witness.Sink.{Sink}
use witness.Structured.Classify.{FileParseOpts}
use witness.Watcher.State.{File, Aggregator, TailedFile}
use witness.Watcher.Lines.{
  max_lines_per_poll, normalize_line, init, StopReason, at_eof, backpressure, at_limit,
  push_partial,
}

abbrev pub partial_agg : ℕ → Aggregator → Aggregator
partial_agg n a = record a { read_ahead = a.read_ahead + n; partial_bytes = a.partial_bytes + n }

-- `tailed.agg.as_ref().map_or(tailed.pos, |a| a.read_ahead)`.
abbrev pub cursor : TailedFile → ℕ
cursor t = elim t.agg [ none ↦ t.pos | some a ↦ a.read_ahead ]

unfoldable pub fold_agg : ℕ → Bytes → Option Aggregator → Option Aggregator
fold_agg max_bytes line none = none
fold_agg max_bytes line (some a) =
    some (append_to_record (record a { partial_bytes = 0 }) line a.partial_bytes max_bytes)

-- How long ago the record grew; a record that has no time of growth is new.
abbrev pub waited_for : ℕ → Aggregator → ℕ
waited_for now a = elim a.last_append [ none ↦ 0 | some at ↦ now - at ]

-- How long the pending record has waited, at an instant.
abbrev pub waited : ℕ → Option Aggregator → Option ℕ
waited now none = none
waited now (some a) = if has_record a then some (waited_for now a) else none

abbrev pub remaining : ℕ → Option ℕ → Option ℕ
remaining timeout none = none
remaining timeout (some elapsed) = some (timeout - elapsed)

unfoldable pub fold_partial : MultilineOpts → TailedFile → TailedFile
unfolding fold_agg normalize_line append_to_record
fold_partial ml t =
    if is_empty t.partial
    then t
    else record t { partial = []; agg = fold_agg ml.max_bytes (normalize_line t.partial) t.agg }

module _ (crates : Crates) (opts : FileParseOpts) where
  open crates use {Value}

  module _ (ml : MultilineOpts) where
    -- A piece with no newline: buffered; the number is what was consumed of it.
    unfoldable pub hold_partial : Option Aggregator → Bytes → TailedFile → ℕ × TailedFile
    unfolding push_partial
    hold_partial none buf t = (0, t)
    hold_partial (some a) buf t = (
      length buf,
      record t {
        partial = push_partial crates t.partial buf;
        agg = some (partial_agg (length buf) a);
      },
    )

    pub record Outcome : Type 0 where
      pub reason : StopReason
      pub consumed : ℕ
      pub file : TailedFile
      pub sink : Sink Value

    -- The loop over the results of `read_line`. `now k` is the instant of the k-th commit.
    unfoldable pub read_loop : (ℕ → ℕ) → Reads → ℕ → ℕ → TailedFile → Sink Value → Outcome
    unfolding commit_line hold_partial
    read_loop now eof lines consumed t sink = record {
      reason = at_eof;
      consumed = consumed;
      file = t;
      sink = sink;
    }
    read_loop now error lines consumed t sink = record {
      reason = at_eof;
      consumed = consumed;
      file = t;
      sink = sink;
    }
    read_loop now (got buf rest) lines consumed t sink = elim (ends_line buf) [
      | true ↦
          let (done, t', sink') =
            commit_line crates opts ml t (init buf) (length buf) (now lines) sink in
          elim done [
            | refused ↦ record {
              reason = backpressure;
              consumed = consumed;
              file = t';
              sink = sink';
            }
            | ok ↦ elim (leb max_lines_per_poll (lines + 1)) [
              | true ↦ record {
                reason = at_limit;
                consumed = consumed + length buf;
                file = t';
                sink = sink';
              }
              | false ↦ read_loop now rest (lines + 1) (consumed + length buf) t' sink'
            ]
          ]
      | false ↦
          let (held, t') = hold_partial t.agg buf t in
          read_loop now rest lines (consumed + held) t' sink
    ]

    unfoldable pub read_live :
        (ℕ → ℕ) → File → TailedFile → Sink Value → ℕ × TailedFile × Sink Value
    unfolding ensure_agg read_loop reads
    read_live now file t sink =
        let t' = ensure_agg t in
        elim (file.reader_at (cursor t')) [
          | none ↦ (0, t', sink)
          | some reader ↦
              let o = read_loop now (reads crates reader) 0 0 t' sink in
              (o.consumed, o.file, o.sink)
        ]

    unfoldable pub flush_final : TailedFile → Sink Value → TailedFile × Sink Value
    unfolding fold_partial ship
    flush_final t sink =
        let (_, t', sink') = ship crates opts (fold_partial ml t) sink in (t', sink')

    -- Behind the loop of a drain: at the end of the old file its last record is shipped; if that is
    -- refused, or the end was not reached, the descriptor is put back.
    unfoldable pub drained : File → Outcome → ℕ × TailedFile × Sink Value
    unfolding fold_partial ship
    drained file o = elim o.reason [
      | at_eof ↦
          let (sent, t, sink) = ship crates opts (fold_partial ml o.file) o.sink in
          (o.consumed, if sent then t else record t { retained_fd = some file }, sink)
      | _ ↦ (o.consumed, record (o.file) { retained_fd = some file }, o.sink)
    ]

    unfoldable pub drain : (ℕ → ℕ) → TailedFile → Sink Value → ℕ × TailedFile × Sink Value
    unfolding ensure_agg read_loop drained reads
    drain now t sink = elim t.retained_fd [
      | none ↦ (0, t, sink)
      | some file ↦
          let t' = ensure_agg (record t { retained_fd = none }) in
          elim (file.reader_at (cursor t')) [
            | none ↦ (0, t', sink)
            | some reader ↦ drained file (read_loop now (reads crates reader) 0 0 t' sink)
          ]
    ]

    -- `now` and `later` are the instants of the two looks at the clock.
    unfoldable pub flush_if_expired :
        ℕ → ℕ → TailedFile → Sink Value → Option ℕ × TailedFile × Sink Value
    unfolding ship
    flush_if_expired now later t sink = elim (waited now t.agg) [
      | none ↦ (none, t, sink)
      | some elapsed ↦
          let (_, t', sink') =
            if leb ml.timeout elapsed then ship crates opts t sink else (true, t, sink) in
          (remaining ml.timeout (waited later t'.agg), t', sink')
    ]
