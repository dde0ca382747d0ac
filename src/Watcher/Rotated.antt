-- ===== src/Watcher/Rotated.antt =====
-- src/logs/watcher.rs: the drain of a file that was rotated away.
use witness.Prelude.{
  ℕ, ◌≡◌, refl, sym, ap, ap₂, ◌∙◌, subst, ◌⊎◌, inl, inr, true, none, some, List, [], ◌∷◌, ◌++◌,
  append-nil, Bool-cases, drop, is_empty, drop-add,
}
use witness.Prelude.Str.{Bytes}
use witness.Std.Trim.{trim}
use witness.Text.{Reader, Reads, eof, error, got, reads}
use witness.Text.Lines.{split_lines}
use witness.Text.Loop.{reads_of, reads_lem}
use witness.Crates.{Crates}
use witness.Level.{info}
use witness.Sink.{Entry, Sink, try_log_with_service, try_log_lem, log, log_with_service}
use witness.Structured.Classify.{FileParseOpts}
use witness.Watcher.State.{File, TailedFile}
use witness.Watcher.Lines.{
  StopReason, at_eof, backpressure, at_limit, Progress, start, store, release, line_loop, drained,
  drain_retained, flush_partial, log_unless_empty,
}
use witness.Watcher.Delivery.{total, prepend, Delivered, shipped, left_over, line_loop-Delivered}
use witness.Watcher.Polls.{
  split_lines_past, Holds, Standing, Standing-Delivered, got_head, got_tail,
}

-- All lines are done when a loop over them meets the end of the file; and it meets no error.
all_done : (ls done : List Bytes) → reads_of ls ≡ prepend done eof → ls ≡ done
all_done [] [] e = refl
all_done [] (b ∷ bs) e = absurd (not_got b _ e)
  where
    not_got : (b : Bytes) (r : Reads) → eof ≡ got b r → ⊥
    not_got b r e = cc
all_done (l ∷ ls) [] e = absurd (not_eof l _ e)
  where
    not_eof : (b : Bytes) (r : Reads) → got b r ≡ eof → ⊥
    not_eof b r e = cc
all_done (l ∷ ls) (b ∷ bs) e = ap₂ ◌∷◌ (got_head l b _ _ e) (all_done ls bs (got_tail l b _ _ e))

no_error : (ls done : List Bytes) → reads_of ls ≡ prepend done error → ⊥
no_error [] [] e = cc
no_error [] (b ∷ bs) e = cc
no_error (l ∷ ls) [] e = cc
no_error (l ∷ ls) (b ∷ bs) e = no_error ls bs (got_tail l b _ _ e)

abbrev pub last_entry : {Value : Type 0} → Bytes → Entry Value
last_entry text = record {
  level = info;
  message = text;
  component = none;
  service = none;
  payload = none;
}

module _ (crates : Crates) (opts : FileParseOpts) where
  open crates use {Value}

  -- Nothing more was taken, or the trimmed text as one entry.
  abbrev pub Flushed : Bytes → List (Entry Value) → List (Entry Value) → Type 0
  Flushed text before after = (after ≡ before) ⊎ (after ≡ before ++ last_entry (trim text) ∷ [])

  moved :
      {text text' : Bytes} {before before' : List (Entry Value)}
      → text ≡ text'
      → before ≡ before'
      → (after : List (Entry Value)) → Flushed text before after
      → Flushed text' before' after
  moved {text'} {before} e f after h =
      subst (λ b. Flushed text' b after) f (subst (λ x. Flushed x before after) e h)

  log_lem :
      (s : Sink Value) (text : Bytes)
      → ((log s info text).taken ≡ s.taken)
        ⊎ ((log s info text).taken ≡ s.taken ++ last_entry text ∷ [])
  unfolding log log_with_service
  log_lem s text =
      let sent = try_log_lem s (last_entry text) in
      elim (Bool-cases (try_log_with_service s (last_entry text)).0) [
        | inl e ↦ inr (rw e at sent)
        | inr e ↦ inl (rw e at sent)
      ]

  log_unless_empty_lem :
      (text : Bytes) (s : Sink Value)
      → ((log_unless_empty crates text s).taken ≡ s.taken)
        ⊎ ((log_unless_empty crates text s).taken ≡ s.taken ++ last_entry text ∷ [])
  unfolding log_unless_empty
  log_unless_empty_lem [] s = inl refl
  log_unless_empty_lem (c ∷ cs) s = log_lem s (c ∷ cs)

  pub flush_partial_lem :
      (t : TailedFile) (s : Sink Value)
      → (let o = flush_partial crates t s in
          (o.0.partial ≡ [])
          × (o.0.retained_fd ≡ t.retained_fd)
          × Flushed t.partial s.taken o.1.taken)
  unfolding flush_partial
  flush_partial_lem t s = elim (Bool-cases (is_empty t.partial)) [
    | inl e ↦ rw (e, flush_partial) (empty t.partial e, refl, inl refl)
    | inr e ↦ rw (e, flush_partial) (refl, refl, log_unless_empty_lem (trim t.partial) s)
  ]
    where
      empty : (s : Bytes) → is_empty s ≡ true → s ≡ []
      empty [] h = refl
      empty (c ∷ cs) h = cc

  module _ (content : Bytes) (from : ℕ) (partial : Bytes) (base : List (Entry Value))
      (file : File) where
    -- The descriptor is kept, and the file stands where it was left; or it is let go, all of its lines
    -- were shipped, and the line that no newline ended was handed to the sink once.
    abbrev pub Ended : TailedFile → Sink Value → Type 0
    Ended t s =
        ((t.retained_fd ≡ some file) × Standing crates opts content from partial base t s)
        ⊎ ((t.retained_fd ≡ none)
            × (t.partial ≡ [])
            × Flushed (left_over crates opts partial (split_lines (drop from content)))
                (base ++ shipped crates opts partial (split_lines (drop from content))) s.taken)

    drained-Ended :
        (t : TailedFile) (sink : Sink Value) (r : Reads) (reason : StopReason) (p : Progress crates)
        → r ≡ reads_of (split_lines (drop t.pos content))
        → Standing crates opts content from partial base t sink
        → Delivered crates opts r (start crates t sink) (reason, p)
        → (let o = drained crates file (release crates t) (reason, p) in Ended o.1 o.2)
    unfolding drained
    drained-Ended t sink r at_eof p e s d =
        let q =
          Standing-Delivered crates opts content partial from base t sink r (at_eof, p) e s d in
        let ends : d.rest ≡ eof = elim d.stops [
          | inl end ↦ end
          | inr bad ↦ absurd (no_error _ d.done (sym e ∙ d.splits ∙ ap (prepend d.done) bad))
        ] in
        let every = all_done _ d.done (sym e ∙ d.splits ∙ ap (prepend d.done) ends) in
        let left_nil =
          sym q.ahead
          ∙ ap (λ n. split_lines (drop n content)) d.pos_is
          ∙ ap split_lines (drop-add t.pos (total d.done) content)
          ∙ split_lines_past d.done [] (drop t.pos content) (every ∙ sym (append-nil d.done)) in
        let whole : q.done ≡ split_lines (drop from content) =
          sym (q.lines_are ∙ ap (λ l. q.done ++ l) left_nil ∙ append-nil q.done) in
        let (gone, let_go, flushed) =
          flush_partial_lem (store crates (release crates t) p) p.sink in
        inr (
          let_go,
          gone,
          moved (q.partial_is ∙ ap (left_over crates opts partial) whole)
              (q.taken_is ∙ ap (λ l. base ++ shipped crates opts partial l) whole)
              (flush_partial crates (store crates (release crates t) p) p.sink).1.taken flushed,
        )
    drained-Ended t sink r backpressure p e s d =
        let q =
          Standing-Delivered crates opts content partial from base t sink r (backpressure, p) e s
            d in
        inl (
          refl,
          record {
            done = q.done;
            left = q.left;
            lines_are = q.lines_are;
            ahead = q.ahead;
            pos_is = q.pos_is;
            partial_is = q.partial_is;
            taken_is = q.taken_is;
          },
        )
    drained-Ended t sink r at_limit p e s d =
        let q =
          Standing-Delivered crates opts content partial from base t sink r (at_limit, p) e s d in
        inl (
          refl,
          record {
            done = q.done;
            left = q.left;
            lines_are = q.lines_are;
            ahead = q.ahead;
            pos_is = q.pos_is;
            partial_is = q.partial_is;
            taken_is = q.taken_is;
          },
        )

    drain_retained_at :
        (t : TailedFile) (sink : Sink Value) (reader : Reader)
        → t.retained_fd ≡ some file
        → file.reader_at t.pos ≡ some reader
        → drain_retained crates opts t sink
          ≡ drained crates file
              (release crates t)
              (line_loop crates opts (reads crates reader) 0 (start crates t sink))
    unfolding drain_retained
    drain_retained_at t sink reader h e = rw (h, e, drain_retained)

    -- Draining a file that was rotated away and does not change: while its descriptor is kept, what was
    -- shipped are the entries of the lines before the position, each once and in order; once it is let
    -- go, they are those of all its lines, and at most one entry more, of the text that no newline ended.
    pub drain_retained-Ended :
        (t : TailedFile) (sink : Sink Value)
        → Holds file content
        → t.retained_fd ≡ some file
        → Standing crates opts content from partial base t sink
        → (let o = drain_retained crates opts t sink in Ended o.1 o.2)
    drain_retained-Ended t sink holds h s =
        let (reader, found, clean, same) = holds t.pos in
        let o = line_loop crates opts (reads crates reader) 0 (start crates t sink) in
        rw (drain_retained_at t sink reader h found) (
          drained-Ended t sink (reads crates reader) o.0 o.1
            (reads_lem crates reader clean ∙ ap (λ d. reads_of (split_lines d)) same) s
            (line_loop-Delivered crates opts (reads crates reader) 0 (start crates t sink)))
