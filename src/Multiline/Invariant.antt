-- ===== src/Multiline/Invariant.antt =====
-- src/logs/multiline.rs: the operations on a file, and what their loop keeps.
use witness.Multiline.Offsets.{
  reset-IsSound, OptSound, IsSound, ensure_agg-IsSound, ship-IsSound, commit_line-IsSound,
  hold_partial-IsSound, append_to_record-AggSound,
}
use witness.Prelude.{
  ℕ, ◌+◌, ◌≡◌, refl, ◌⊎◌, inl, inr, Bool, true, false, Option, none, some, List, [], ◌∷◌, arith,
  leb, if◌then◌else◌, Bool-cases, Option-cases, length, is_empty,
}
use witness.Prelude.Str.{Bytes}
use witness.Text.{reads, Reads, eof, error, got}
use witness.Text.Lines.{ends_line}
use witness.Crates.{Crates}
use witness.Sink.{Sink}
use witness.Structured.Classify.{FileParseOpts}
use witness.Watcher.State.{File, Aggregator, TailedFile}
use witness.Watcher.Lines.{
  normalize_line, StopReason, at_eof, backpressure, at_limit, init, max_lines_per_poll,
}
use witness.Multiline.Record.{
  reset, ensure_agg, ship, MultilineOpts, Commit, ok, refused, commit_line,
}
use witness.Multiline.Loop.{
  drain, flush_if_expired, waited, Outcome, fold_agg, hold_partial, read_loop, read_live,
  fold_partial, flush_final, drained, cursor,
}

Commit-cases : (c : Commit) → (c ≡ ok) ⊎ (c ≡ refused)
Commit-cases ok = inl refl
Commit-cases refused = inr refl

module _ (crates : Crates) (opts : FileParseOpts) (ml : MultilineOpts) where
  -- What a committed line, a refused one and a held piece keep, the loop keeps.
  pub read_loop_inv {κ} :
      (P : ℕ → TailedFile → Sink crates.Value → Type κ)
      → ((n at : ℕ) (t : TailedFile) (s : Sink crates.Value) (buf : Bytes)
          → P n t s
          → (let o = commit_line crates opts ml t (init buf) (length buf) at s in
              ends_line buf ≡ true
              → (o.0 ≡ ok → P (n + length buf) o.1 o.2) × (o.0 ≡ refused → P n o.1 o.2)))
      → ((n : ℕ) (t : TailedFile) (s : Sink crates.Value) (buf : Bytes)
          → P n t s
          → (let o = hold_partial crates opts ml t.agg buf t in P (n + o.0) o.1 s))
      → (now : ℕ → ℕ) (r : Reads) (lines n : ℕ) (t : TailedFile) (s : Sink crates.Value) → P n t s
      → (let o = read_loop crates opts ml now r lines n t s in P o.consumed o.file o.sink)
  unfolding read_loop
  read_loop_inv P keep hold now eof lines n t s h = h
  read_loop_inv P keep hold now error lines n t s h = h
  read_loop_inv P keep hold now (got buf rest) lines n t s h = elim (Bool-cases (ends_line buf)) [
    | inr part ↦
        let o = hold_partial crates opts ml t.agg buf t in
        rw (part, read_loop)
          (read_loop_inv P keep hold now rest lines (n + o.0) o.1 s (hold n t s buf h))
    | inl line ↦
        let o = commit_line crates opts ml t (init buf) (length buf) (now lines) s in
        let kept = keep n (now lines) t s buf h line in
        elim (Commit-cases o.0) [
          | inr e ↦ rw (line, e, read_loop) (kept.1 e)
          | inl e ↦ elim (Bool-cases (leb max_lines_per_poll (lines + 1))) [
            | inl full ↦ rw (line, e, full, read_loop) (kept.0 e)
            | inr more ↦
                rw (line, e, more, read_loop)
                  (read_loop_inv P keep hold now rest (lines + 1) (n + length buf) o.1 o.2
                    (kept.0 e))
          ]
        ]
  ]

  read_loop-IsSound :
      (now : ℕ → ℕ) (r : Reads) (lines n : ℕ) (t : TailedFile) (s : Sink crates.Value)
      → IsSound ml t
      → IsSound ml (read_loop crates opts ml now r lines n t s).file
  read_loop-IsSound =
      read_loop_inv (λ n t s. IsSound ml t)
        (λ n at t s buf h line.
          let kept = commit_line-IsSound crates opts ml t (init buf) (length buf) at s h in
          (λ e. kept, λ e. kept))
        (λ n t s buf h. hold_partial-IsSound crates opts ml t.agg buf t h h)

  read_live-IsSound :
      (now : ℕ → ℕ) (file : File) (t : TailedFile) (s : Sink crates.Value)
      → IsSound ml t
      → IsSound ml (read_live crates opts ml now file t s).1
  unfolding read_live
  read_live-IsSound now file t s h =
      let ready = ensure_agg-IsSound ml t h in
      elim (Option-cases (file.reader_at (cursor (ensure_agg t)))) [
        | inl e ↦ rw (e, read_live) ready
        | inr (reader, e) ↦
            rw (e, read_live)
              (read_loop-IsSound now (reads crates reader) 0 0 (ensure_agg t) s ready)
      ]

  fold_agg-OptSound :
      (line : Bytes) (pos : ℕ) (o : Option Aggregator)
      → OptSound ml.max_bytes pos o
      → OptSound ml.max_bytes pos (fold_agg ml.max_bytes line o)
  unfolding fold_agg
  fold_agg-OptSound line pos none h = h
  fold_agg-OptSound line pos (some a) h =
      append_to_record-AggSound ml.max_bytes pos a.partial_bytes (record a { partial_bytes = 0 })
        line (omega (arith, h.tracks))

  fold_partial-IsSound : (t : TailedFile) → IsSound ml t → IsSound ml (fold_partial ml t)
  unfolding fold_partial
  fold_partial-IsSound t h = elim (Bool-cases (is_empty t.partial)) [
    | inl e ↦ rw (e, fold_partial) h
    | inr e ↦ rw (e, fold_partial) (fold_agg-OptSound (normalize_line t.partial) t.pos t.agg h)
  ]

  flush_final-IsSound :
      (t : TailedFile) (s : Sink crates.Value)
      → IsSound ml t
      → IsSound ml (flush_final crates opts ml t s).0
  unfolding flush_final
  flush_final-IsSound t s h =
      ship-IsSound crates opts ml (fold_partial ml t) s (fold_partial-IsSound t h)

  drained-IsSound :
      (file : File) (o : Outcome crates opts ml)
      → IsSound ml o.file
      → IsSound ml (drained crates opts ml file o).1
  unfolding drained
  drained-IsSound file o h = by_reason o.reason
    where
      flushed : IsSound ml (ship crates opts (fold_partial ml o.file) o.sink).1
      flushed =
          ship-IsSound crates opts ml (fold_partial ml o.file) o.sink
            (fold_partial-IsSound o.file h)

      by_answer :
          (b : Bool) (t : TailedFile)
          → IsSound ml t
          → IsSound ml (if b then t else record t { retained_fd = some file })
      by_answer true t h = h
      by_answer false t h = h

      by_reason :
          (r : StopReason) → IsSound ml (drained crates opts ml file (record o { reason = r })).1
      by_reason at_eof = by_answer (ship crates opts (fold_partial ml o.file) o.sink).0 _ flushed
      by_reason backpressure = h
      by_reason at_limit = h

  drain-IsSound :
      (now : ℕ → ℕ) (t : TailedFile) (s : Sink crates.Value)
      → IsSound ml t
      → IsSound ml (drain crates opts ml now t s).1
  unfolding drain
  drain-IsSound now t s h = elim (Option-cases t.retained_fd) [
    | inl e ↦ rw (e, drain) h
    | inr (file, e) ↦
        let released = record t { retained_fd = none } in
        let ready = ensure_agg-IsSound ml released h in
        elim (Option-cases (file.reader_at (cursor (ensure_agg released)))) [
          | inl c ↦ rw (e, c, drain) ready
          | inr (reader, c) ↦
              rw (e, c, drain)
                (drained-IsSound file
                  (read_loop crates opts ml now (reads crates reader) 0 0 (ensure_agg released) s)
                  (read_loop-IsSound now (reads crates reader) 0 0 (ensure_agg released) s ready))
        ]
  ]

  flush_if_expired-IsSound :
      (now later : ℕ) (t : TailedFile) (s : Sink crates.Value)
      → IsSound ml t
      → IsSound ml (flush_if_expired crates opts ml now later t s).1
  unfolding flush_if_expired
  flush_if_expired-IsSound now later t s h = elim (Option-cases (waited now t.agg)) [
    | inl e ↦ rw (e, flush_if_expired) h
    | inr (elapsed, e) ↦ elim (Bool-cases (leb ml.timeout elapsed)) [
      | inl due ↦ rw (e, due, flush_if_expired) (ship-IsSound crates opts ml t s h)
      | inr early ↦ rw (e, early, flush_if_expired) h
    ]
  ]

  -- What the tailer does to a file in multiline mode.
  pub data Operation : Type 0 where
    live : (ℕ → ℕ) → File → Operation
    drain_old : (ℕ → ℕ) → Operation
    rotate : File → Operation
    truncate : Operation
    expire : ℕ → ℕ → Operation
    finish : Operation

  unfoldable pub operate :
      Operation → TailedFile → Sink crates.Value → TailedFile × Sink crates.Value
  operate (live now file) t s = let (_, t', s') = read_live crates opts ml now file t s in (t', s')
  operate (drain_old now) t s = let (_, t', s') = drain crates opts ml now t s in (t', s')
  operate (rotate file) t s = (record t { retained_fd = some file; open_failures = 0 }, s)
  operate truncate t s = (reset (record t { pos = 0 }), s)
  operate (expire now later) t s =
      let (_, t', s') = flush_if_expired crates opts ml now later t s in (t', s')
  operate finish t s = flush_final crates opts ml t s

  pub operate_all : List Operation → TailedFile → Sink crates.Value → TailedFile × Sink crates.Value
  operate_all [] t s = (t, s)
  operate_all (o ∷ os) t s = let (t', s') = operate o t s in operate_all os t' s'

  operate-IsSound :
      (o : Operation) (t : TailedFile) (s : Sink crates.Value)
      → IsSound ml t
      → IsSound ml (operate o t s).0
  unfolding operate
  operate-IsSound (live now file) t s h = read_live-IsSound now file t s h
  operate-IsSound (drain_old now) t s h = drain-IsSound now t s h
  operate-IsSound (rotate file) t s h = h
  operate-IsSound truncate t s h = reset-IsSound ml (record t { pos = 0 })
  operate-IsSound (expire now later) t s h = flush_if_expired-IsSound now later t s h
  operate-IsSound finish t s h = flush_final-IsSound t s h

  -- Whatever is done to a file, in any order and against any sink: its read cursor stays its position
  -- plus the bytes of the record and of the partial line in flight, and the record's text stays
  -- within `max_bytes`.
  pub operate_all-IsSound :
      (os : List Operation) (t : TailedFile) (s : Sink crates.Value)
      → IsSound ml t
      → IsSound ml (operate_all os t s).0
  unfolding operate_all
  operate_all-IsSound [] t s h = h
  operate_all-IsSound (o ∷ os) t s h =
      operate_all-IsSound os (operate o t s).0 (operate o t s).1 (operate-IsSound o t s h)
