-- ===== src/Watcher/Poll.antt =====
-- src/logs/watcher.rs: one poll of a file, with rotation and truncation, and of all files.
use witness.Prelude.{
  ℕ, ◌+◌, true, false, Option, none, some, List, [], ◌∷◌, ltb, leb, if◌then◌else◌,
}
use witness.Prelude.Str.{Bytes}
use witness.Assoc.{Assoc, bytes_key, lookup, insert, remove, keys}
use witness.Crates.{Crates}
use witness.Sink.{Sink}
use witness.Structured.Classify.{FileParseOpts}
use witness.Watcher.State.{FileId, same_id, File, TailedFile}
use witness.Watcher.Identity.{FileSystem, Metadata, find_rotated_file, file_id_key}
use witness.Watcher.Registry.{Registry, register_file}
use witness.Watcher.Lines.{read_lines, drain_retained, flush_partial}
use witness.Multiline.Record.{MultilineOpts, reset}
use witness.Multiline.Loop.{read_live, drain}

pub data ReadResult : Type 0 where
  bytes : ℕ → ReadResult
  rotated : File → ReadResult
  rotated_lost : ReadResult
  open_failed : ReadResult
  idle : ReadResult

-- Take a path out of the index if it leads to the file.
unfoldable pub unlink : Bytes → FileId → Assoc Bytes FileId → Assoc Bytes FileId
unfolding lookup remove
unlink path id index = elim (lookup path index) [
  | none ↦ index
  | some j ↦ if same_id j id then remove path index else index
]

module _ (crates : Crates) (opts : FileParseOpts) (fs : FileSystem) (now : ℕ → ℕ) where
  open crates use {Value}

  abbrev Answer : Type 0
  Answer = ReadResult × TailedFile × Sink Value

  abbrev pub read_result : ℕ → ReadResult
  read_result n = if ltb 0 n then bytes n else idle

  abbrev pub flush_single : Option MultilineOpts → TailedFile → Sink Value → TailedFile × Sink Value
  flush_single none t sink = flush_partial crates t sink
  flush_single (some _) t sink = (t, sink)

  abbrev pub read_by :
      Option MultilineOpts → File → TailedFile → Sink Value → ℕ × TailedFile × Sink Value
  read_by (some m) file t sink = read_live crates opts m now file t sink
  read_by none file t sink = read_lines crates opts file t sink

  abbrev pub drain_by : Option MultilineOpts → TailedFile → Sink Value → ℕ × TailedFile × Sink Value
  drain_by (some m) t sink = drain crates opts m now t sink
  drain_by none t sink = drain_retained crates opts t sink

  -- The path leads to another file: the partial line is flushed (single-line mode), and the old file
  -- is looked for.
  unfoldable pub on_rotation : Option MultilineOpts → TailedFile → Sink Value → Answer
  unfolding flush_partial find_rotated_file
  on_rotation ml t sink =
      let (t', sink') = flush_single ml t sink in
      (elim (find_rotated_file fs t') [ some old ↦ rotated old | none ↦ rotated_lost ], t', sink')

  -- The file got shorter than the position: start over.
  unfoldable pub on_truncation :
      Option MultilineOpts → ℕ → TailedFile → Sink Value → TailedFile × Sink Value
  unfolding flush_partial reset
  on_truncation ml len t sink =
      if ltb len t.pos
      then elim ml [
        | some _ ↦ (reset (record t { pos = 0 }), sink)
        | none ↦ flush_partial crates (record t { pos = 0 }) sink
      ]
      else (t, sink)

  unfoldable pub read_new : Option MultilineOpts → ℕ → File → TailedFile → Sink Value → Answer
  unfolding read_lines read_live
  read_new ml len file t sink = elim (leb len t.pos) [
    | true ↦ (idle, t, sink)
    | false ↦ let (n, t', sink') = read_by ml file t sink in (read_result n, t', sink')
  ]

  unfoldable pub check_opened :
      Option MultilineOpts → File → Metadata → TailedFile → Sink Value → Answer
  unfolding on_rotation on_truncation read_new
  check_opened ml file meta t sink = elim (same_id meta.id t.id) [
    | false ↦ on_rotation ml t sink
    | true ↦
        let (t', sink') = on_truncation ml meta.len t sink in read_new ml meta.len file t' sink'
  ]

  unfoldable pub check_and_read : Option MultilineOpts → TailedFile → Sink Value → Answer
  unfolding check_opened
  check_and_read ml t sink = elim (fs.open_file t.path) [
    | none ↦ (open_failed, t, sink)
    | some (file, meta) ↦ elim meta [
      | none ↦ (open_failed, t, sink)
      | some m ↦ check_opened ml file m t sink
    ]
  ]

  -- What the loop over the files carries.
  pub record Tailer : Type 0 where
    pub registry : Registry
    pub sink : Sink Value
    pub total_bytes : ℕ

  abbrev set_file : FileId → TailedFile → Registry → Registry
  set_file id t r = record r { files = insert id t r.files }

  -- A rotated-out file that was drained: it is dropped when its descriptor is gone.
  unfoldable pub after_drain : FileId → ℕ × TailedFile × Sink Value → Tailer → Tailer
  unfolding insert remove unlink
  after_drain id (n, t, sink) s = record {
    registry = elim t.retained_fd [
      | some _ ↦ set_file id t s.registry
      | none ↦ record {
        files = remove id s.registry.files;
        index = unlink t.path t.id s.registry.index;
      }
    ];
    sink = sink;
    total_bytes = s.total_bytes + n;
  }

  -- The `match` on what a read came to.
  unfoldable pub after_read : FileId → ReadResult → TailedFile → Sink Value → Tailer → Tailer
  unfolding insert remove unlink register_file
  after_read id (bytes n) t sink s = record {
    registry = set_file id (record t { open_failures = 0 }) s.registry;
    sink = sink;
    total_bytes = s.total_bytes + n;
  }
  after_read id (rotated old) t sink s = record s {
    registry = register_file fs [] (some 0) t.path (record {
      files = insert id (record t { retained_fd = some old; open_failures = 0 }) s.registry.files;
      index = unlink t.path id s.registry.index;
    });
    sink = sink;
  }
  after_read id rotated_lost t sink s = record s {
    registry =
        register_file fs [] (some 0) t.path
          (record { files = remove id s.registry.files; index = remove t.path s.registry.index });
    sink = sink;
  }
  after_read id open_failed t sink s = record s {
    registry = set_file id (record t { open_failures = t.open_failures + 1 }) s.registry;
    sink = sink;
  }
  after_read id idle t sink s = record s { registry = set_file id t s.registry; sink = sink }

  unfoldable pub poll_file : Option MultilineOpts → FileId → TailedFile → Tailer → Tailer
  unfolding drain_retained drain check_and_read after_drain after_read
  poll_file ml id t s = elim t.skip_utf16 [
    | true ↦ s
    | false ↦ elim t.retained_fd [
      | some _ ↦ after_drain id (drain_by ml t s.sink) s
      | none ↦
          let (result, t', sink') = check_and_read ml t s.sink in after_read id result t' sink' s
    ]
  ]

  unfoldable pub poll_ids : Option MultilineOpts → List FileId → Tailer → Tailer
  unfolding poll_file lookup
  poll_ids ml [] s = s
  poll_ids ml (id ∷ ids) s =
      poll_ids ml ids
        (elim (lookup id s.registry.files) [ none ↦ s | some t ↦ poll_file ml id t s ])

  unfoldable pub poll_all : Option MultilineOpts → Tailer → Tailer
  unfolding poll_ids
  poll_all ml s = poll_ids ml (keys s.registry.files) (record s { total_bytes = 0 })
