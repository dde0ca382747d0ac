-- ===== src/Multiline/Kept.antt =====
-- src/logs/multiline.rs: the path and the identity of a file under the operations.
use witness.Prelude.{
  ℕ, ◌+◌, ◌≡◌, refl, ◌∙◌, inl, inr, Bool, true, false, ◌&&◌, Option, none, some, [], ◌∷◌, leb,
  if◌then◌else◌, Bool-cases, Option-cases, length, is_empty,
}
use witness.Prelude.Str.{Bytes}
use witness.Std.Trim.{trim}
use witness.Text.{Reads, reads}
use witness.Crates.{Crates}
use witness.Sink.{Sink, try_log_with_service}
use witness.Structured.Classify.{FileParseOpts}
use witness.Watcher.State.{File, Aggregator, TailedFile, FileId}
use witness.Watcher.Lines.{
  init, complete, normalize_line, entry_of, StopReason, at_eof, backpressure, at_limit,
}
use witness.Multiline.Record.{
  MultilineOpts, has_record, ship, ship_agg, ship_record, commit_line, commit_to, commit_after,
  flush_before, agg_has_record, is_start, partial_bytes_of, shipped_file, ensure_agg,
}
use witness.Multiline.Loop.{
  Outcome, hold_partial, read_loop, read_live, fold_partial, drained, drain, flush_if_expired,
  waited, cursor,
}
use witness.Multiline.Invariant.{read_loop_inv}

abbrev pub Kept : TailedFile → TailedFile → Type 0
Kept t t' = (t'.path ≡ t.path) × (t'.id ≡ t.id)

-- `Kept t u` and `Kept u v` give `Kept t v`.
pub kept_both :
    {p q r : Bytes} {i j k : FileId} → (q ≡ p) × (j ≡ i) → (r ≡ q) × (k ≡ j) → (r ≡ p) × (k ≡ i)
kept_both (e, f) (g, h) = (g ∙ e, h ∙ f)

fold_partial-Kept : (ml : MultilineOpts) (t : TailedFile) → Kept t (fold_partial ml t)
unfolding fold_partial
fold_partial-Kept ml t = elim (Bool-cases (is_empty t.partial)) [
  | inl e ↦ rw (e, fold_partial) (refl, refl)
  | inr e ↦ rw (e, fold_partial) (refl, refl)
]

if_Kept : (b : Bool) (t u v : TailedFile) → Kept t u → Kept t v → Kept t (if b then u else v)
if_Kept true t u v h k = h
if_Kept false t u v h k = k

module _ (crates : Crates) (opts : FileParseOpts) (ml : MultilineOpts) where
  open crates use {Value}

  ship_record-Kept :
      (text : Bytes) (a : Aggregator) (t : TailedFile) (s : Sink Value)
      → Kept t (ship_record crates opts text a t s).1
  unfolding ship_record
  ship_record-Kept [] a t s = (refl, refl)
  ship_record-Kept (c ∷ cs) a t s =
      if_Kept (try_log_with_service s (entry_of crates opts a.joined)).0 t (shipped_file a t) t
        (refl, refl) (refl, refl)

  ship_agg-Kept :
      (o : Option Aggregator) (t : TailedFile) (s : Sink Value)
      → Kept t (ship_agg crates opts o t s).1
  unfolding ship_agg
  ship_agg-Kept none t s = (refl, refl)
  ship_agg-Kept (some a) t s = elim (Bool-cases (has_record a)) [
    | inl e ↦ rw (e, ship_agg) (ship_record-Kept (trim a.joined) a t s)
    | inr e ↦ rw (e, ship_agg) (refl, refl)
  ]

  ship-Kept : (t : TailedFile) (s : Sink Value) → Kept t (ship crates opts t s).1
  unfolding ship
  ship-Kept t s = ship_agg-Kept t.agg t s

  flush_before-Kept :
      (line : Bytes) (t : TailedFile) (s : Sink Value)
      → Kept t (flush_before crates opts ml line t s).1
  unfolding flush_before
  flush_before-Kept line t s = elim (Bool-cases (is_start ml line && agg_has_record t.agg)) [
    | inl e ↦ rw (e, flush_before) (ship-Kept t s)
    | inr e ↦ rw (e, flush_before) (refl, refl)
  ]

  commit_to-Kept :
      (o : Option Aggregator) (line : Bytes) (span n at : ℕ) (t : TailedFile) (s : Sink Value)
      → Kept t (commit_to crates opts ml o line span n at t s).1
  unfolding commit_to
  commit_to-Kept none line span n at t s = (refl, refl)
  commit_to-Kept (some a) line span n at t s = (refl, refl)

  commit_after-Kept :
      (line : Bytes) (span n at : ℕ) (t : TailedFile) (o : Bool × TailedFile × Sink Value)
      → Kept t o.1
      → Kept t (commit_after crates opts ml line span n at o).1
  commit_after-Kept line span n at t (false, u, s) h = h
  commit_after-Kept line span n at t (true, u, s) h =
      kept_both h (commit_to-Kept u.agg line span n at u s)

  commit_line-Kept :
      (t : TailedFile) (bytes : Bytes) (n at : ℕ) (s : Sink Value)
      → Kept t (commit_line crates opts ml t bytes n at s).1
  unfolding commit_line
  commit_line-Kept t bytes n at s =
      let line = normalize_line (complete crates t.partial bytes) in
      commit_after-Kept line (partial_bytes_of t.agg + n) n at t
        (flush_before crates opts ml line t s) (flush_before-Kept line t s)

  hold_partial-Kept :
      (o : Option Aggregator) (buf : Bytes) (t : TailedFile)
      → Kept t (hold_partial crates opts ml o buf t).1
  unfolding hold_partial
  hold_partial-Kept none buf t = (refl, refl)
  hold_partial-Kept (some a) buf t = (refl, refl)

  read_loop-Kept :
      (now : ℕ → ℕ) (r : Reads) (lines n : ℕ) (t : TailedFile) (s : Sink Value)
      → Kept t (read_loop crates opts ml now r lines n t s).file
  read_loop-Kept now r lines n t s =
      read_loop_inv crates opts ml (λ n u s. Kept t u)
        (λ n at u s buf h line.
          let k = kept_both h (commit_line-Kept u (init buf) (length buf) at s) in (λ e. k, λ e. k))
        (λ n u s buf h. kept_both h (hold_partial-Kept u.agg buf u)) now r lines n t s (refl, refl)

  pub read_live-Kept :
      (now : ℕ → ℕ) (file : File) (t : TailedFile) (s : Sink Value)
      → Kept t (read_live crates opts ml now file t s).1
  unfolding read_live
  read_live-Kept now file t s = elim (Option-cases (file.reader_at (cursor (ensure_agg t)))) [
    | inl e ↦ rw (e, read_live) (refl, refl)
    | inr (reader, e) ↦
        rw (e, read_live) (read_loop-Kept now (reads crates reader) 0 0 (ensure_agg t) s)
  ]

  drained-Kept :
      (file : File) (t : TailedFile) (o : Outcome crates opts ml)
      → Kept t o.file
      → Kept t (drained crates opts ml file o).1
  unfolding drained
  drained-Kept file t o h = by_reason o.reason
    where
      flushed : Kept t (ship crates opts (fold_partial ml o.file) o.sink).1
      flushed =
          kept_both (kept_both h (fold_partial-Kept ml o.file))
            (ship-Kept (fold_partial ml o.file) o.sink)

      by_reason :
          (r : StopReason) → Kept t (drained crates opts ml file (record o { reason = r })).1
      by_reason at_eof =
          if_Kept (ship crates opts (fold_partial ml o.file) o.sink).0 t
            (ship crates opts (fold_partial ml o.file) o.sink).1
            (record (ship crates opts (fold_partial ml o.file) o.sink).1 {
              retained_fd = some file;
            })
            flushed flushed
      by_reason backpressure = h
      by_reason at_limit = h

  pub drain-Kept :
      (now : ℕ → ℕ) (t : TailedFile) (s : Sink Value) → Kept t (drain crates opts ml now t s).1
  unfolding drain
  drain-Kept now t s = elim (Option-cases t.retained_fd) [
    | inl e ↦ rw (e, drain) (refl, refl)
    | inr (file, e) ↦
        let ready = ensure_agg (record t { retained_fd = none }) in
        elim (Option-cases (file.reader_at (cursor ready))) [
          | inl c ↦ rw (e, c, drain) (refl, refl)
          | inr (reader, c) ↦
              rw (e, c, drain)
                (drained-Kept file t
                  (read_loop crates opts ml now (reads crates reader) 0 0 ready s)
                  (read_loop-Kept now (reads crates reader) 0 0 ready s))
        ]
  ]

  pub flush_if_expired-Kept :
      (now later : ℕ) (t : TailedFile) (s : Sink Value)
      → Kept t (flush_if_expired crates opts ml now later t s).1
  unfolding flush_if_expired
  flush_if_expired-Kept now later t s = elim (Option-cases (waited now t.agg)) [
    | inl e ↦ rw (e, flush_if_expired) (refl, refl)
    | inr (elapsed, e) ↦ elim (Bool-cases (leb ml.timeout elapsed)) [
      | inl due ↦ rw (e, due, flush_if_expired) (ship-Kept t s)
      | inr early ↦ rw (e, early, flush_if_expired) (refl, refl)
    ]
  ]
