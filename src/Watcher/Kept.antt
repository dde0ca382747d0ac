-- ===== src/Watcher/Kept.antt =====
-- src/logs/watcher.rs: the path and the identity of a file over a poll.
use witness.Prelude.{
  ℕ, refl, inl, inr, Option, none, some, ltb, leb, Bool-cases, Option-cases, is_empty,
}
use witness.Text.{reads}
use witness.Crates.{Crates}
use witness.Sink.{Sink}
use witness.Structured.Classify.{FileParseOpts}
use witness.Watcher.State.{File, TailedFile, same_id}
use witness.Watcher.Identity.{FileSystem, Metadata}
use witness.Watcher.Lines.{
  StopReason, at_eof, backpressure, at_limit, Progress, flush_partial, read_lines, drained,
  drain_retained, line_loop, start, store, release,
}
use witness.Watcher.Poll.{
  on_rotation, on_truncation, read_new, check_opened, check_and_read, flush_single, read_by,
}
use witness.Multiline.Record.{MultilineOpts, reset}
use witness.Multiline.Kept.{Kept, kept_both, read_live-Kept}

module _ (crates : Crates) (opts : FileParseOpts) where
  open crates use {Value}

  flush_partial-Kept : (t : TailedFile) (s : Sink Value) → Kept t (flush_partial crates t s).0
  unfolding flush_partial
  flush_partial-Kept t s = elim (Bool-cases (is_empty t.partial)) [
    | inl e ↦ rw (e, flush_partial) (refl, refl)
    | inr e ↦ rw (e, flush_partial) (refl, refl)
  ]

  read_lines-Kept :
      (file : File) (t : TailedFile) (s : Sink Value) → Kept t (read_lines crates opts file t s).1
  unfolding read_lines
  read_lines-Kept file t s = elim (Option-cases (file.reader_at t.pos)) [
    | inl e ↦ rw (e, read_lines) (refl, refl)
    | inr (reader, e) ↦ rw (e, read_lines) (refl, refl)
  ]

  drained-Kept :
      (file : File) (t : TailedFile) (r : StopReason) (p : Progress crates)
      → Kept t (drained crates file t (r, p)).1
  unfolding drained
  drained-Kept file t at_eof p = flush_partial-Kept (store crates t p) p.sink
  drained-Kept file t backpressure p = (refl, refl)
  drained-Kept file t at_limit p = (refl, refl)

  pub drain_retained-Kept :
      (t : TailedFile) (s : Sink Value) → Kept t (drain_retained crates opts t s).1
  unfolding drain_retained
  drain_retained-Kept t s = elim (Option-cases t.retained_fd) [
    | inl e ↦ rw (e, drain_retained) (refl, refl)
    | inr (file, e) ↦ elim (Option-cases (file.reader_at t.pos)) [
      | inl c ↦ rw (e, c, drain_retained) (refl, refl)
      | inr (reader, c) ↦
          let o = line_loop crates opts (reads crates reader) 0 (start crates t s) in
          rw (e, c, drain_retained) (drained-Kept file (release crates t) o.0 o.1)
    ]
  ]

  module _ (fs : FileSystem) (now : ℕ → ℕ) where
    flush_single-Kept :
        (ml : Option MultilineOpts) (t : TailedFile) (s : Sink Value)
        → Kept t (flush_single crates opts fs now ml t s).0
    flush_single-Kept none t s = flush_partial-Kept t s
    flush_single-Kept (some m) t s = (refl, refl)

    read_by-Kept :
        (ml : Option MultilineOpts) (file : File) (t : TailedFile) (s : Sink Value)
        → Kept t (read_by crates opts fs now ml file t s).1
    read_by-Kept none file t s = read_lines-Kept file t s
    read_by-Kept (some m) file t s = read_live-Kept crates opts m now file t s

    on_rotation-Kept :
        (ml : Option MultilineOpts) (t : TailedFile) (s : Sink Value)
        → Kept t (on_rotation crates opts fs now ml t s).1
    unfolding on_rotation
    on_rotation-Kept ml t s = flush_single-Kept ml t s

    on_truncation-Kept :
        (ml : Option MultilineOpts) (len : ℕ) (t : TailedFile) (s : Sink Value)
        → Kept t (on_truncation crates opts fs now ml len t s).0
    unfolding on_truncation reset
    on_truncation-Kept ml len t s = elim (Bool-cases (ltb len t.pos)) [
      | inr e ↦ rw (e, on_truncation) (refl, refl)
      | inl e ↦ rw (e, on_truncation) (by_mode ml)
    ]
      where
        by_mode :
            (ml : Option MultilineOpts)
            → Kept t
                (elim ml as (λ _. TailedFile × Sink Value) [
                  | some _ ↦ (reset (record t { pos = 0 }), s)
                  | none ↦ flush_partial crates (record t { pos = 0 }) s
                ]).0
        by_mode none = flush_partial-Kept (record t { pos = 0 }) s
        by_mode (some m) = (refl, refl)

    read_new-Kept :
        (ml : Option MultilineOpts) (len : ℕ) (file : File) (t : TailedFile) (s : Sink Value)
        → Kept t (read_new crates opts fs now ml len file t s).1
    unfolding read_new
    read_new-Kept ml len file t s = elim (Bool-cases (leb len t.pos)) [
      | inl e ↦ rw (e, read_new) (refl, refl)
      | inr e ↦ rw (e, read_new) (read_by-Kept ml file t s)
    ]

    check_opened-Kept :
        (ml : Option MultilineOpts) (file : File) (meta : Metadata) (t : TailedFile)
        (s : Sink Value)
        → Kept t (check_opened crates opts fs now ml file meta t s).1
    unfolding check_opened
    check_opened-Kept ml file meta t s = elim (Bool-cases (same_id meta.id t.id)) [
      | inr e ↦ rw (e, check_opened) (on_rotation-Kept ml t s)
      | inl e ↦
          let o = on_truncation crates opts fs now ml meta.len t s in
          rw (e, check_opened)
            (kept_both (on_truncation-Kept ml meta.len t s)
              (read_new-Kept ml meta.len file o.0 o.1))
    ]

    pub check_and_read-Kept :
        (ml : Option MultilineOpts) (t : TailedFile) (s : Sink Value)
        → Kept t (check_and_read crates opts fs now ml t s).1
    unfolding check_and_read
    check_and_read-Kept ml t s = elim (Option-cases (fs.open_file t.path)) [
      | inl e ↦ rw (e, check_and_read) (refl, refl)
      | inr (o, e) ↦ elim (Option-cases o.1) [
        | inl c ↦ rw (e, c, check_and_read) (refl, refl)
        | inr (m, c) ↦ rw (e, c, check_and_read) (check_opened-Kept ml o.0 m t s)
      ]
    ]
