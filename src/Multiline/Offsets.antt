-- ===== src/Multiline/Offsets.antt =====
-- src/logs/multiline.rs: the position, the read cursor and the bytes in flight.
use witness.Prelude.{
  ℕ, ◌+◌, ◌≤◌, ◌≡◌, refl, sym, ap, ◌∙◌, subst, inl, inr, Bool, true, false, ◌&&◌, Option, none,
  some, [], ◌∷◌, arith, if◌then◌else◌, Bool-cases, length,
}
use witness.Prelude.Str.{Bytes}
use witness.Std.Trim.{trim}
use witness.Utf8.Laws.{length-truncate_to-le}
use witness.Crates.{Crates}
use witness.Sink.{Sink, try_log_with_service}
use witness.Structured.Classify.{FileParseOpts}
use witness.Watcher.State.{Aggregator, TailedFile}
use witness.Watcher.Lines.{complete, normalize_line, entry_of}
use witness.Multiline.Record.{
  shipped_file, clear_record, MultilineOpts, new_aggregator, has_record, append_to_record,
  ensure_agg, reset, ship, ship_agg, ship_record, commit_line, commit_to, commit_after, agg_or_new,
  reset_agg, shipped_file, clear_record, flush_before, joined_with, agg_has_record, is_start,
  partial_bytes_of,
}
use witness.Multiline.Loop.{hold_partial}

-- `read_ahead` is `pos` and the bytes folded into the record and into the partial line.
pub record AggSound (limit pos : ℕ) (a : Aggregator) : Type 0 where
  pub tracks : a.read_ahead ≡ pos + a.record_bytes + a.partial_bytes
  pub fits : length a.joined ≤ limit

abbrev pub OptSound : ℕ → ℕ → Option Aggregator → Type 0
OptSound limit pos none = Unit
OptSound limit pos (some a) = AggSound limit pos a

abbrev pub IsSound : MultilineOpts → TailedFile → Type 0
IsSound ml t = OptSound ml.max_bytes t.pos t.agg

pub append_to_record-AggSound :
    (limit pos span : ℕ) (a : Aggregator) (line : Bytes)
    → a.read_ahead ≡ pos + a.record_bytes + span + a.partial_bytes
    → AggSound limit pos (append_to_record a line span limit)
unfolding append_to_record
append_to_record-AggSound limit pos span a line h = record {
  tracks = omega arith;
  fits = length-truncate_to-le limit (joined_with a.joined line);
}

new_aggregator-AggSound : (limit pos : ℕ) → AggSound limit pos (new_aggregator pos)
unfolding new_aggregator
new_aggregator-AggSound limit pos = record { tracks = omega arith; fits = omega arith }

pub ensure_agg-IsSound :
    (ml : MultilineOpts) (t : TailedFile) → IsSound ml t → IsSound ml (ensure_agg t)
unfolding ensure_agg
ensure_agg-IsSound ml t h = by_agg t.agg h
  where
    by_agg :
        (o : Option Aggregator)
        → OptSound ml.max_bytes t.pos o
        → AggSound ml.max_bytes t.pos (agg_or_new t.pos o)
    by_agg none h = new_aggregator-AggSound ml.max_bytes t.pos
    by_agg (some a) h = h

pub reset-IsSound : (ml : MultilineOpts) (t : TailedFile) → IsSound ml (reset t)
unfolding reset
reset-IsSound ml t = by_agg t.agg
  where
    by_agg : (o : Option Aggregator) → OptSound ml.max_bytes t.pos (reset_agg t.pos o)
    by_agg none = tt
    by_agg (some a) = new_aggregator-AggSound ml.max_bytes t.pos

module _ (crates : Crates) (opts : FileParseOpts) (ml : MultilineOpts) where
  ship_record-IsSound :
      (text : Bytes) (a : Aggregator) (t : TailedFile) (sink : Sink crates.Value)
      → AggSound ml.max_bytes t.pos a
      → IsSound ml t
      → IsSound ml (ship_record crates opts text a t sink).1
  unfolding ship_record clear_record
  ship_record-IsSound [] a t sink s h = record {
    tracks = omega (arith, s.tracks);
    fits = omega arith;
  }
  ship_record-IsSound (c ∷ cs) a t sink s h =
      by_answer (try_log_with_service sink (entry_of crates opts a.joined)).0
    where
      by_answer : (b : Bool) → IsSound ml (if b then shipped_file a t else t)
      by_answer false = h
      by_answer true = record { tracks = omega (arith, s.tracks); fits = omega arith }

  ship_agg-IsSound :
      (o : Option Aggregator) (t : TailedFile) (sink : Sink crates.Value)
      → OptSound ml.max_bytes t.pos o
      → IsSound ml t
      → IsSound ml (ship_agg crates opts o t sink).1
  unfolding ship_agg
  ship_agg-IsSound none t sink s h = h
  ship_agg-IsSound (some a) t sink s h = elim (Bool-cases (has_record a)) [
    | inl some_bytes ↦ rw some_bytes (ship_record-IsSound (trim a.joined) a t sink s h)
    | inr no_bytes ↦ rw no_bytes h
  ]

  pub ship-IsSound :
      (t : TailedFile) (sink : Sink crates.Value)
      → IsSound ml t
      → IsSound ml (ship crates opts t sink).1
  unfolding ship
  ship-IsSound t sink h = ship_agg-IsSound t.agg t sink h h

  ship_record-partial_bytes :
      (text : Bytes) (a : Aggregator) (t : TailedFile) (sink : Sink crates.Value)
      → partial_bytes_of t.agg ≡ a.partial_bytes
      → partial_bytes_of (ship_record crates opts text a t sink).1.agg ≡ a.partial_bytes
  unfolding ship_record clear_record
  ship_record-partial_bytes [] a t sink h = refl
  ship_record-partial_bytes (c ∷ cs) a t sink h =
      by_answer (try_log_with_service sink (entry_of crates opts a.joined)).0
    where
      by_answer :
          (b : Bool) → partial_bytes_of (if b then shipped_file a t else t).agg ≡ a.partial_bytes
      by_answer false = h
      by_answer true = refl

  ship_agg-partial_bytes :
      (o : Option Aggregator) (t : TailedFile) (sink : Sink crates.Value)
      → t.agg ≡ o
      → partial_bytes_of (ship_agg crates opts o t sink).1.agg ≡ partial_bytes_of t.agg
  unfolding ship_agg
  ship_agg-partial_bytes none t sink e = refl
  ship_agg-partial_bytes (some a) t sink e = elim (Bool-cases (has_record a)) [
    | inl some_bytes ↦
        let same : partial_bytes_of t.agg ≡ a.partial_bytes = ap partial_bytes_of e in
        rw some_bytes (ship_record-partial_bytes (trim a.joined) a t sink same ∙ sym same)
    | inr no_bytes ↦ rw no_bytes
  ]

  -- Shipping leaves the partial line alone.
  flush_before-partial_bytes :
      (line : Bytes) (t : TailedFile) (sink : Sink crates.Value)
      → partial_bytes_of (flush_before crates opts ml line t sink).1.agg ≡ partial_bytes_of t.agg
  unfolding flush_before ship
  flush_before-partial_bytes line t sink =
      elim (Bool-cases (is_start ml line && agg_has_record t.agg)) [
        | inl flush ↦ rw flush (ship_agg-partial_bytes t.agg t sink refl)
        | inr keep ↦ rw keep
      ]

  flush_before-IsSound :
      (line : Bytes) (t : TailedFile) (sink : Sink crates.Value)
      → IsSound ml t
      → IsSound ml (flush_before crates opts ml line t sink).1
  unfolding flush_before
  flush_before-IsSound line t sink h =
      elim (Bool-cases (is_start ml line && agg_has_record t.agg)) [
        | inl flush ↦ rw flush (ship-IsSound t sink h)
        | inr keep ↦ rw keep h
      ]

  -- A line that was flushed before keeps the partial bytes.
  commit_to-IsSound :
      (o : Option Aggregator) (line : Bytes) (n now : ℕ) (t : TailedFile) (sink : Sink crates.Value)
      → OptSound ml.max_bytes t.pos o
      → IsSound ml t
      → IsSound ml (commit_to crates opts ml o line (partial_bytes_of o + n) n now t sink).1
  unfolding commit_to
  commit_to-IsSound none line n now t sink s h = h
  commit_to-IsSound (some a) line n now t sink s h =
      let b =
        append_to_record-AggSound ml.max_bytes t.pos (a.partial_bytes + n)
          (record a { read_ahead = a.read_ahead + n; partial_bytes = 0 }) line
          (omega (arith, s.tracks)) in
      record { tracks = b.tracks; fits = b.fits }

  commit_after-IsSound :
      (line : Bytes) (n now : ℕ) (o : Bool × TailedFile × Sink crates.Value)
      → IsSound ml o.1
      → IsSound ml (commit_after crates opts ml line (partial_bytes_of o.1.agg + n) n now o).1
  commit_after-IsSound line n now (false, t, sink) h = h
  commit_after-IsSound line n now (true, t, sink) h = commit_to-IsSound t.agg line n now t sink h h

  pub commit_line-IsSound :
      (t : TailedFile) (bytes : Bytes) (n now : ℕ) (sink : Sink crates.Value)
      → IsSound ml t
      → IsSound ml (commit_line crates opts ml t bytes n now sink).1
  unfolding commit_line
  commit_line-IsSound t bytes n now sink h =
      let line = normalize_line (complete crates t.partial bytes) in
      let o = flush_before crates opts ml line t sink in
      subst (λ k. IsSound ml (commit_after crates opts ml line (k + n) n now o).1)
        (flush_before-partial_bytes line t sink)
        (commit_after-IsSound line n now o (flush_before-IsSound line t sink h))

  pub hold_partial-IsSound :
      (o : Option Aggregator) (buf : Bytes) (t : TailedFile)
      → OptSound ml.max_bytes t.pos o
      → IsSound ml t
      → IsSound ml (hold_partial crates opts ml o buf t).1
  unfolding hold_partial
  hold_partial-IsSound none buf t s h = h
  hold_partial-IsSound (some a) buf t s h = record {
    tracks = omega (arith, s.tracks);
    fits = s.fits;
  }
