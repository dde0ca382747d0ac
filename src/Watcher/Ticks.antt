-- ===== src/Watcher/Ticks.antt =====
-- src/logs/watcher.rs: the parts of a tick, and the index of paths.
use witness.Prelude.{
  ℕ, ◌+◌, ◌≡◌, refl, inl, inr, Option, none, some, List, [], ◌∷◌, Bool-cases, Option-cases,
}
use witness.Prelude.Str.{Bytes}
use witness.Assoc.{Assoc, bytes_key, lookup, contains, keys}
use witness.Crates.{Crates}
use witness.Sink.{Sink}
use witness.Structured.Classify.{FileParseOpts}
use witness.Watcher.State.{TailedFile, FileId}
use witness.Watcher.Identity.{FileSystem, file_id_key}
use witness.Watcher.Registry.{Registry, SavedOffset, register_file}
use witness.Watcher.Poll.{
  ReadResult, bytes, rotated, rotated_lost, open_failed, idle, Tailer, after_drain, after_read,
  drain_by, poll_file, poll_ids, poll_all, check_and_read,
}
use witness.Watcher.Schedule.{evict, evict_all, discover, register_all}
use witness.Watcher.Index.{IsIndexed, set_file-IsIndexed, drop-IsIndexed}
use witness.Watcher.Register.{register_file-IsIndexed, rotate-IsIndexed, lose-IsIndexed}
use witness.Watcher.Kept.{check_and_read-Kept, drain_retained-Kept}
use witness.Multiline.Record.{MultilineOpts}
use witness.Multiline.Kept.{Kept, drain-Kept}

evict-IsIndexed : (id : FileId) (r : Registry) → IsIndexed r → IsIndexed (evict id r)
unfolding evict
evict-IsIndexed id r x = elim (Option-cases (lookup id r.files)) [
  | inl e ↦ rw (e, evict) x
  | inr (t, e) ↦ rw (e, evict) (drop-IsIndexed r id t t x e refl refl)
]

pub evict_all-IsIndexed :
    (ids : List FileId) (r : Registry) → IsIndexed r → IsIndexed (evict_all ids r)
unfolding evict_all
evict_all-IsIndexed [] r x = x
evict_all-IsIndexed (id ∷ ids) r x = evict_all-IsIndexed ids (evict id r) (evict-IsIndexed id r x)

pub register_all-IsIndexed :
    (fs : FileSystem) (saved : Assoc Bytes SavedOffset) (paths : List Bytes) (r : Registry)
    → IsIndexed r
    → IsIndexed (register_all fs saved paths r)
unfolding register_all
register_all-IsIndexed fs saved [] r x = x
register_all-IsIndexed fs saved (p ∷ ps) r x =
    register_all-IsIndexed fs saved ps (register_file fs saved none p r)
      (register_file-IsIndexed fs saved none p r x)

pub discover-IsIndexed :
    (fs : FileSystem) (paths : List Bytes) (r : Registry)
    → IsIndexed r
    → IsIndexed (discover fs paths r)
unfolding discover
discover-IsIndexed fs [] r x = x
discover-IsIndexed fs (p ∷ ps) r x = elim (Bool-cases (contains p r.index)) [
  | inl e ↦ rw (e, discover) (discover-IsIndexed fs ps r x)
  | inr e ↦
      rw (e, discover)
        (discover-IsIndexed fs ps (register_file fs [] none p r)
          (register_file-IsIndexed fs [] none p r x))
]

module _ (crates : Crates) (opts : FileParseOpts) (fs : FileSystem) (now : ℕ → ℕ) where
  open crates use {Value}

  after_drain-IsIndexed :
      (id : FileId) (t : TailedFile) (s : Tailer crates opts fs now)
      (o : ℕ × TailedFile × Sink Value)
      → IsIndexed s.registry
      → lookup id s.registry.files ≡ some t
      → Kept t o.1
      → IsIndexed (after_drain crates opts fs now id o s).registry
  unfolding after_drain
  after_drain-IsIndexed id t s o x e (path, same) = elim (Option-cases o.1.retained_fd) [
    | inl c ↦ rw (c, after_drain) (drop-IsIndexed s.registry id t o.1 x e path same)
    | inr (f, c) ↦ rw (c, after_drain) (set_file-IsIndexed s.registry id t o.1 x e path same)
  ]

  after_read-IsIndexed :
      (id : FileId) (t t' : TailedFile) (k : Sink Value) (s : Tailer crates opts fs now)
      (r : ReadResult)
      → IsIndexed s.registry
      → lookup id s.registry.files ≡ some t
      → Kept t t'
      → IsIndexed (after_read crates opts fs now id r t' k s).registry
  unfolding after_read
  after_read-IsIndexed id t t' k s (bytes n) x e (path, same) =
      set_file-IsIndexed s.registry id t (record t' { open_failures = 0 }) x e path same
  after_read-IsIndexed id t t' k s (rotated old) x e (path, same) =
      register_file-IsIndexed fs [] (some 0) t'.path _ (
        rotate-IsIndexed s.registry id t (record t' { retained_fd = some old; open_failures = 0 }) x
          e path same)
  after_read-IsIndexed id t t' k s rotated_lost x e (path, same) =
      register_file-IsIndexed fs [] (some 0) t'.path _ (lose-IsIndexed s.registry id t t' x e path)
  after_read-IsIndexed id t t' k s open_failed x e (path, same) =
      set_file-IsIndexed s.registry id t (record t' { open_failures = t'.open_failures + 1 }) x e
        path same
  after_read-IsIndexed id t t' k s idle x e (path, same) =
      set_file-IsIndexed s.registry id t t' x e path same

  drain_by-Kept :
      (ml : Option MultilineOpts) (t : TailedFile) (s : Sink Value)
      → Kept t (drain_by crates opts fs now ml t s).1
  drain_by-Kept (some m) t s = drain-Kept crates opts m now t s
  drain_by-Kept none t s = drain_retained-Kept crates opts t s

  poll_file-IsIndexed :
      (ml : Option MultilineOpts) (id : FileId) (t : TailedFile) (s : Tailer crates opts fs now)
      → IsIndexed s.registry
      → lookup id s.registry.files ≡ some t
      → IsIndexed (poll_file crates opts fs now ml id t s).registry
  unfolding poll_file
  poll_file-IsIndexed ml id t s x e = elim (Bool-cases t.skip_utf16) [
    | inl skip ↦ rw (skip, poll_file) x
    | inr c ↦ elim (Option-cases t.retained_fd) [
      | inl d ↦
          let o = check_and_read crates opts fs now ml t s.sink in
          rw (c, d, poll_file)
            (after_read-IsIndexed id t o.1 o.2 s o.0 x e
              (check_and_read-Kept crates opts fs now ml t s.sink))
      | inr (f, d) ↦
          rw (c, d, poll_file)
            (after_drain-IsIndexed id t s (drain_by crates opts fs now ml t s.sink) x e
              (drain_by-Kept ml t s.sink))
    ]
  ]

  poll_ids-IsIndexed :
      (ml : Option MultilineOpts) (ids : List FileId) (s : Tailer crates opts fs now)
      → IsIndexed s.registry
      → IsIndexed (poll_ids crates opts fs now ml ids s).registry
  unfolding poll_ids
  poll_ids-IsIndexed ml [] s x = x
  poll_ids-IsIndexed ml (id ∷ ids) s x = elim (Option-cases (lookup id s.registry.files)) [
    | inl e ↦ rw (e, poll_ids) (poll_ids-IsIndexed ml ids s x)
    | inr (t, e) ↦
        rw (e, poll_ids)
          (poll_ids-IsIndexed ml ids (poll_file crates opts fs now ml id t s)
            (poll_file-IsIndexed ml id t s x e))
  ]

  pub poll_all-IsIndexed :
      (ml : Option MultilineOpts) (s : Tailer crates opts fs now)
      → IsIndexed s.registry
      → IsIndexed (poll_all crates opts fs now ml s).registry
  unfolding poll_all
  poll_all-IsIndexed ml s x =
      poll_ids-IsIndexed ml (keys s.registry.files) (record s { total_bytes = 0 }) x
