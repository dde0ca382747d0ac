-- ===== src/Watcher/Schedule.antt =====
-- src/logs/watcher.rs: the tick of the main loop, its delays, the eviction of stale files and the
-- final drain.
use witness.Prelude.{
  ℕ, ◌*◌, min, max, Bool, not, ◌&&◌, Option, none, some, List, [], ◌∷◌, ltb, leb, if◌then◌else◌,
  is_some,
}
use witness.Assoc.{Assoc, bytes_key}
use witness.Crates.{Crates}
use witness.Sink.{Sink}
use witness.Structured.Classify.{FileParseOpts}
use witness.Watcher.State.{FileId, TailedFile}
use witness.Watcher.Identity.{FileSystem, file_id_key}
use witness.Watcher.Registry.{Registry, SavedOffset, register_file}
use witness.Watcher.Lines.{flush_partial}
use witness.Watcher.Poll.{poll_all, unlink}
use witness.Multiline.Record.{MultilineOpts}
use witness.Multiline.Loop.{flush_if_expired, flush_final}
use witness.Prelude.Str.{Bytes}
use witness.Assoc.{lookup, remove, contains}

-- Milliseconds.
abbrev pub poll_base_ms : ℕ
poll_base_ms = 250

abbrev pub poll_max_ms : ℕ
poll_max_ms = 2000

abbrev pub poll_catchup_ms : ℕ
poll_catchup_ms = 50

abbrev pub stale_threshold : ℕ
stale_threshold = 30

unfoldable pub poll_delay : ℕ → Option ℕ → ℕ
poll_delay interval none = interval
poll_delay interval (some remaining) = max (min interval remaining) poll_catchup_ms

-- Fast while data flows, slower and slower when idle.
unfoldable pub next_interval : ℕ → ℕ → ℕ
next_interval total_bytes interval =
    if ltb 0 total_bytes then poll_catchup_ms else min (interval * 2) poll_max_ms

abbrev pub nearest : Option ℕ → Option ℕ → Option ℕ
nearest none o = o
nearest (some n) none = some n
nearest (some n) (some m) = some (min n m)

abbrev pub is_stale : TailedFile → Bool
is_stale t = leb stale_threshold t.open_failures && not (is_some t.retained_fd)

-- The ids of the files to evict.
unfoldable pub removable : Assoc FileId TailedFile → List FileId
removable [] = []
removable ((id, t) ∷ m) = if is_stale t then id ∷ removable m else removable m

unfoldable pub evict : FileId → Registry → Registry
unfolding lookup remove unlink
evict id r = elim (lookup id r.files) [
  | none ↦ r
  | some t ↦ record { files = remove id r.files; index = unlink t.path t.id r.index }
]

unfoldable pub evict_all : List FileId → Registry → Registry
unfolding evict
evict_all [] r = r
evict_all (id ∷ ids) r = evict_all ids (evict id r)

-- The rescan: a path in the index is known already.
unfoldable pub discover : FileSystem → List Bytes → Registry → Registry
unfolding register_file lookup
discover fs [] r = r
discover fs (path ∷ paths) r =
    discover fs paths (if contains path r.index then r else register_file fs [] none path r)

-- The start: each path, with the saved offsets.
unfoldable pub register_all :
    FileSystem → Assoc Bytes SavedOffset → List Bytes → Registry → Registry
unfolding register_file
register_all fs saved [] r = r
register_all fs saved (path ∷ paths) r =
    register_all fs saved paths (register_file fs saved none path r)

module _ (crates : Crates) (opts : FileParseOpts) where
  open crates use {Value}

  -- The records whose time is up, and the time to the next. `now` and `later` are the instants.
  unfoldable pub flush_each :
      MultilineOpts
      → ℕ
      → ℕ
      → Option ℕ
      → Assoc FileId TailedFile
      → Sink Value
      → Option ℕ × Assoc FileId TailedFile × Sink Value
  unfolding flush_if_expired
  flush_each ml now later near [] sink = (near, [], sink)
  flush_each ml now later near ((id, t) ∷ m) sink =
      let (remaining, t', sink') = flush_if_expired crates opts ml now later t sink in
      let (near', m', sink'') = flush_each ml now later (nearest near remaining) m sink' in
      (near', (id, t') ∷ m', sink'')

  unfoldable pub flush_expired_records :
      Option MultilineOpts
      → ℕ
      → ℕ
      → Assoc FileId TailedFile
      → Sink Value
      → Option ℕ × Assoc FileId TailedFile × Sink Value
  unfolding flush_each
  flush_expired_records none now later files sink = (none, files, sink)
  flush_expired_records (some ml) now later files sink = flush_each ml now later none files sink

  -- The last words of each file.
  unfoldable pub flush_files :
      Option MultilineOpts
      → Assoc FileId TailedFile
      → Sink Value
      → Assoc FileId TailedFile × Sink Value
  unfolding flush_final flush_partial
  flush_files ml [] sink = ([], sink)
  flush_files none ((id, t) ∷ m) sink =
      let (t', sink') = flush_partial crates t sink in
      let (m', sink'') = flush_files none m sink' in ((id, t') ∷ m', sink'')
  flush_files (some ml) ((id, t) ∷ m) sink =
      let (t', sink') = flush_final crates opts ml t sink in
      let (m', sink'') = flush_files (some ml) m sink' in ((id, t') ∷ m', sink'')

  -- What the main loop keeps between ticks.
  pub record Main : Type 0 where
    pub registry : Registry
    pub sink : Sink Value
    pub interval : ℕ
    pub pending : Option ℕ

  -- The poll arm of the loop: poll, flush what is due, set the pace, evict the stale.
  unfoldable pub poll_tick : FileSystem → (ℕ → ℕ) → ℕ → ℕ → Option MultilineOpts → Main → Main
  unfolding poll_all flush_expired_records removable evict_all next_interval
  poll_tick fs clock now later ml s =
      let polled =
        poll_all crates opts fs clock ml
          (record { registry = s.registry; sink = s.sink; total_bytes = 0 }) in
      let (near, files, sink) =
        flush_expired_records ml now later polled.registry.files polled.sink in
      record {
        registry =
            evict_all (removable files) (record { files = files; index = polled.registry.index });
        sink = sink;
        interval = next_interval polled.total_bytes s.interval;
        pending = near;
      }

  -- The shutdown arm: a last poll, then what is still in memory of each file.
  unfoldable pub shutdown :
      FileSystem → (ℕ → ℕ) → Option MultilineOpts → Main → Assoc FileId TailedFile × Sink Value
  unfolding poll_all flush_files
  shutdown fs clock ml s =
      let polled =
        poll_all crates opts fs clock ml
          (record { registry = s.registry; sink = s.sink; total_bytes = 0 }) in
      flush_files ml polled.registry.files polled.sink
