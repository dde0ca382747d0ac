-- ===== src/Multiline/Refusal.antt =====
-- src/logs/multiline.rs: records and lines that the sink refuses.
use witness.Prelude.{
  ℕ, ◌+◌, ◌≡◌, refl, sym, ap, ◌∙◌, subst, ◌⊎◌, inl, inr, Bool, true, false, ◌&&◌, Option, none,
  some, [], ◌∷◌, ◌++◌, arith, if◌then◌else◌, Bool-cases, Option-cases, is_empty,
}
use witness.Prelude.Str.{Bytes}
use mathlib.Core.Bool.{false≢true}
use witness.Std.Trim.{trim}
use witness.Crates.{Crates}
use witness.Sink.{Sink, try_log_lem}
use witness.Structured.Classify.{FileParseOpts}
use witness.Watcher.State.{Aggregator, TailedFile}
use witness.Watcher.Lines.{complete, normalize_line, entry_of}
use witness.Multiline.Record.{
  MultilineOpts, refused, has_record, ship, ship_agg, ship_record, commit_line, commit_to,
  commit_after, flush_before, agg_has_record, is_start, partial_bytes_of, shipped_file,
}

and_right : (a : Bool) {b : Bool} → a && b ≡ true → b ≡ true
and_right a h = ground arith

module _ (crates : Crates) (opts : FileParseOpts) where
  open crates use {Value}

  -- Nothing changed, in the file or in what the sink has taken.
  abbrev pub Unchanged : TailedFile → Sink Value → TailedFile → Sink Value → Type 0
  Unchanged t s t' s' = (t' ≡ t) × (s'.taken ≡ s.taken)

  -- A record that was shipped: exactly its entry was taken (none for a blank record), and the
  -- position passed its bytes.
  abbrev pub Shipped : Aggregator → TailedFile → Sink Value → TailedFile → Sink Value → Type 0
  Shipped a t s t' s' =
      (t' ≡ shipped_file a t)
      × (s'.taken ≡ (
          if is_empty (trim a.joined)
          then s.taken
          else s.taken ++ entry_of crates opts a.joined ∷ []))

  ship_record_lem :
      (a : Aggregator) (t : TailedFile) (s : Sink Value) (text : Bytes)
      → trim a.joined ≡ text
      → (let o = ship_record crates opts text a t s in
          (o.0 ≡ false → Unchanged t s o.1 o.2) × (o.0 ≡ true → Shipped a t s o.1 o.2))
  unfolding ship_record
  ship_record_lem a t s [] e = (λ h. cc, λ h. (refl, rw e))
  ship_record_lem a t s (c ∷ cs) e =
      let sent = try_log_lem s (entry_of crates opts a.joined) in
      (λ h. (rw h refl, rw h at sent), λ h. (rw h refl, rw e (rw h at sent)))

  abbrev Answered : Aggregator → TailedFile → Sink Value → Bool × TailedFile × Sink Value → Type 0
  Answered a t s o = (o.0 ≡ false → Unchanged t s o.1 o.2) × (o.0 ≡ true → Shipped a t s o.1 o.2)

  ship_some :
      (a : Aggregator) (t : TailedFile) (s : Sink Value)
      → has_record a ≡ true
      → Answered a t s (ship_agg crates opts (some a) t s)
  unfolding ship_agg
  ship_some a t s h = rw h (ship_record_lem a t s (trim a.joined) refl)

  pub ship_lem :
      (a : Aggregator) (t : TailedFile) (s : Sink Value)
      → t.agg ≡ some a
      → has_record a ≡ true
      → (let o = ship crates opts t s in
          (o.0 ≡ false → Unchanged t s o.1 o.2) × (o.0 ≡ true → Shipped a t s o.1 o.2))
  unfolding ship
  ship_lem a t s e h =
      subst (λ o. Answered a t s (ship_agg crates opts o t s)) (sym e) (ship_some a t s h)

  module _ (ml : MultilineOpts) where
    -- A flush that is refused, or after which there is no aggregator, changed nothing.
    abbrev Flushed : TailedFile → Sink Value → Bool × TailedFile × Sink Value → Type 0
    Flushed t s o = (o.0 ≡ false) ⊎ (o.1.agg ≡ none) → Unchanged t s o.1 o.2

    shipped_has_agg :
        (a : Aggregator) (t t' : TailedFile) → t' ≡ shipped_file a t → t'.agg ≡ none → ⊥
    shipped_has_agg a t t' e n = none-ne-some (sym n ∙ ap (λ x. x.agg) e)
      where
        none-ne-some : {b : Aggregator} → none ≡ some b → ⊥
        none-ne-some h = cc

    ship-Flushed :
        (t : TailedFile) (s : Sink Value)
        → agg_has_record t.agg ≡ true
        → Flushed t s (ship crates opts t s)
    ship-Flushed t s h = by_agg (Option-cases t.agg)
      where
        by_agg :
            (t.agg ≡ none) ⊎ ((a : Aggregator) × (t.agg ≡ some a))
            → Flushed t s (ship crates opts t s)
        by_agg (inl e) = absurd (false≢true (sym (ap agg_has_record e) ∙ h))
        by_agg (inr (a, e)) =
            let done = ship_lem a t s e (sym (ap agg_has_record e) ∙ h) in
            λ c. elim c [
              | inl no_room ↦ done.0 no_room
              | inr gone ↦ elim (Bool-cases (ship crates opts t s).0) [
                | inr f ↦ done.0 f
                | inl y ↦ absurd (shipped_has_agg a t (ship crates opts t s).1 (done.1 y).0 gone)
              ]
            ]

    flush_before-Flushed :
        (line : Bytes) (t : TailedFile) (s : Sink Value)
        → Flushed t s (flush_before crates opts ml line t s)
    unfolding flush_before
    flush_before-Flushed line t s = elim (Bool-cases (is_start ml line && agg_has_record t.agg)) [
      | inl flush ↦ rw flush (ship-Flushed t s (and_right (is_start ml line) flush))
      | inr keep ↦ rw keep (λ c. (refl, refl))
    ]

    commit_after_refused :
        (line : Bytes) (span n now : ℕ) (t : TailedFile) (s : Sink Value)
        (o : Bool × TailedFile × Sink Value)
        → Flushed t s o
        → (commit_after crates opts ml line span n now o).0 ≡ refused
        → (let c = commit_after crates opts ml line span n now o in Unchanged t s c.1 c.2)
    commit_after_refused line span n now t s (false, t', s') f h = f (inl refl)
    commit_after_refused line span n now t s (true, t', s') f h = by_agg t'.agg refl h
      where
        by_agg :
            (o : Option Aggregator)
            → t'.agg ≡ o
            → (commit_to crates opts ml o line span n now t' s').0 ≡ refused
            → (let c = commit_to crates opts ml o line span n now t' s' in Unchanged t s c.1 c.2)
        by_agg none e h = unfold commit_to in f (inr e)
        by_agg (some a) e h = unfold commit_to in cc h

    -- A line that is refused is not consumed: file, cursor, record and partial line are as they were,
    -- and the sink has taken nothing, so that the next poll meets the same line again.
    pub commit_line_refused :
        (t : TailedFile) (bytes : Bytes) (n now : ℕ) (s : Sink Value)
        → (commit_line crates opts ml t bytes n now s).0 ≡ refused
        → (let o = commit_line crates opts ml t bytes n now s in Unchanged t s o.1 o.2)
    unfolding commit_line
    commit_line_refused t bytes n now s h =
        let line = normalize_line (complete crates t.partial bytes) in
        commit_after_refused line (partial_bytes_of t.agg + n) n now t s
          (flush_before crates opts ml line t s) (flush_before-Flushed line t s) h
