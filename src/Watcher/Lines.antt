-- ===== src/Watcher/Lines.antt =====
-- src/logs/watcher.rs: reading the lines of one file, and shipping them one by one.
use witness.Prelude.{
  ℕ, ◌+◌, ◌-◌, Bool, true, false, none, some, [], ◌∷◌, ◌++◌, leb, if◌then◌else◌, option_or, length,
  take, is_empty,
}
use witness.Prelude.Str.{Bytes, strip_prefix}
use witness.Std.Trim.{trim, trim_end}
use witness.Utf8.{truncate_to}
use witness.Text.{lossy, Reads, eof, error, got, reads}
use witness.Text.Lines.{ends_line}
use witness.Crates.{Crates}
use witness.Level.{info}
use witness.Sink.{Entry, Sink, try_log_with_service, log}
use witness.Structured.Classify.{FileParseOpts, classify_line}
use witness.Watcher.State.{File, TailedFile}

abbrev pub max_partial_bytes : ℕ
max_partial_bytes = 1048576

abbrev pub max_lines_per_poll : ℕ
max_lines_per_poll = 32000

-- U+FEFF.
abbrev pub bom : Bytes
bom = 0xEF ∷ 0xBB ∷ 0xBF ∷ []

-- A line without its newline, as it is matched and shipped.
unfoldable pub normalize_line : Bytes → Bytes
unfolding trim_end strip_prefix
normalize_line line = option_or (strip_prefix bom (trim_end line)) (trim_end line)

-- A line and its newline, apart.
abbrev pub init : Bytes → Bytes
init buf = take (length buf - 1) buf

-- Why a loop over the lines of a file stops.
pub data StopReason : Type 0 where
  at_eof backpressure at_limit : StopReason

module _ (crates : Crates) where
  open crates use {Value}

  unfoldable pub push_partial : Bytes → Bytes → Bytes
  unfolding lossy truncate_to
  push_partial partial bytes =
      if leb max_partial_bytes (length partial)
      then partial
      else truncate_to max_partial_bytes (partial ++ lossy crates bytes)

  abbrev pub entry_of : FileParseOpts → Bytes → Entry Value
  entry_of opts line =
      let c = classify_line crates opts line in
      record {
        level = c.level;
        message = c.body;
        component = none;
        service = c.service;
        payload = c.payload;
      }

  -- The whole line: what was buffered of it, and what was read now.
  abbrev pub complete : Bytes → Bytes → Bytes
  complete partial bytes = partial ++ lossy crates bytes

  -- Whether the line is dealt with, the partial buffer, and the sink.
  unfoldable pub emit_trimmed :
      FileParseOpts → Bytes → Bytes → Sink Value → Bool × Bytes × Sink Value
  emit_trimmed opts [] partial sink = (true, [], sink)
  emit_trimmed opts (c ∷ cs) partial sink =
      let (ok, sink') = try_log_with_service sink (entry_of opts (c ∷ cs)) in
      (ok, if ok then [] else partial, sink')

  unfoldable pub try_emit_line :
      FileParseOpts → Bytes → Bytes → Sink Value → Bool × Bytes × Sink Value
  unfolding emit_trimmed normalize_line lossy
  try_emit_line opts bytes partial sink =
      emit_trimmed opts (normalize_line (complete partial bytes)) partial sink

  unfoldable pub log_unless_empty : Bytes → Sink Value → Sink Value
  log_unless_empty [] sink = sink
  log_unless_empty (c ∷ cs) sink = log sink info (c ∷ cs)

  unfoldable pub flush_partial : TailedFile → Sink Value → TailedFile × Sink Value
  unfolding log_unless_empty trim log
  flush_partial t sink =
      if is_empty t.partial
      then (t, sink)
      else (record t { partial = [] }, log_unless_empty (trim t.partial) sink)

  -- What the loop changes: the bytes read, the file's position and partial buffer, and the sink.
  pub record Progress : Type 0 where
    pub bytes_read : ℕ
    pub pos : ℕ
    pub partial : Bytes
    pub sink : Sink Value

  -- One round on a complete line, with what the sink answered.
  abbrev pub advance : Progress → Bytes → Bytes → Sink Value → Progress
  advance p buf partial sink = record {
    bytes_read = p.bytes_read + length buf;
    pos = p.pos + length buf;
    partial = partial;
    sink = sink;
  }

  -- The loop, over the results of `read_line`; the number counts the lines emitted.
  unfoldable pub line_loop : FileParseOpts → Reads → ℕ → Progress → StopReason × Progress
  unfolding try_emit_line push_partial
  line_loop opts eof n p = (at_eof, p)
  line_loop opts error n p = (at_eof, p)
  line_loop opts (got buf rest) n p = elim (ends_line buf) [
    | true ↦
        let (ok, partial, sink) = try_emit_line opts (init buf) p.partial p.sink in
        elim ok [
          | false ↦ (backpressure, record p { partial = partial; sink = sink })
          | true ↦ elim (leb max_lines_per_poll (n + 1)) [
            | true ↦ (at_limit, advance p buf partial sink)
            | false ↦ line_loop opts rest (n + 1) (advance p buf partial sink)
          ]
        ]
    | false ↦ line_loop opts rest n (advance p buf (push_partial p.partial buf) p.sink)
  ]

  abbrev pub start : TailedFile → Sink Value → Progress
  start t sink = record { bytes_read = 0; pos = t.pos; partial = t.partial; sink = sink }

  abbrev pub store : TailedFile → Progress → TailedFile
  store t p = record t { pos = p.pos; partial = p.partial }

  unfoldable pub read_lines :
      FileParseOpts → File → TailedFile → Sink Value → ℕ × TailedFile × Sink Value
  unfolding line_loop reads
  read_lines opts file t sink = elim (file.reader_at t.pos) [
    | none ↦ (0, t, sink)
    | some reader ↦
        let (_, p) = line_loop opts (reads crates reader) 0 (start t sink) in
        (p.bytes_read, store t p, p.sink)
  ]

  -- Behind the loop of a drain: the descriptor is put back unless the old file was read to its end.
  unfoldable pub drained : File → TailedFile → StopReason × Progress → ℕ × TailedFile × Sink Value
  unfolding flush_partial
  drained file t (at_eof, p) =
      let (t', sink) = flush_partial (store t p) p.sink in (p.bytes_read, t', sink)
  drained file t (_, p) = (p.bytes_read, record (store t p) { retained_fd = some file }, p.sink)

  abbrev pub release : TailedFile → TailedFile
  release t = record t { retained_fd = none }

  unfoldable pub drain_retained :
      FileParseOpts → TailedFile → Sink Value → ℕ × TailedFile × Sink Value
  unfolding line_loop drained reads
  drain_retained opts t sink = elim t.retained_fd [
    | none ↦ (0, t, sink)
    | some file ↦ elim (file.reader_at t.pos) [
      | none ↦ (0, release t, sink)
      | some reader ↦
          drained file (release t) (line_loop opts (reads crates reader) 0 (start t sink))
    ]
  ]
