-- ===== src/Watcher/Delivery.antt =====
-- src/logs/watcher.rs: what the line loop ships, against a description of its own: the lines that
-- were read, assembled with the partial buffer, and classified.
use witness.Prelude.{
  append_assoc, Bool-cases, ◌∙◌, inr, inl, leb, ap, arith, ℕ, ◌+◌, ◌≡◌, refl, sym, ◌⊎◌, Bool, true,
  false, List, [], ◌∷◌, ◌++◌, append-nil, if◌then◌else◌, length,
}
use witness.Prelude.Str.{Bytes}
use witness.Text.{Reads, eof, error, got}
use witness.Text.Lines.{ends_line}
use witness.Crates.{Crates}
use witness.Sink.{Entry, Sink, try_log_lem}
use witness.Structured.Classify.{FileParseOpts}
use witness.Watcher.Lines.{
  max_lines_per_poll, advance, line_loop, normalize_line, init, complete, entry_of, push_partial,
  emit_trimmed, try_emit_line, Progress, StopReason, at_eof, backpressure, at_limit,
}

abbrev pub prepend : List Bytes → Reads → Reads
prepend [] r = r
prepend (b ∷ bs) r = got b (prepend bs r)

abbrev pub total : List Bytes → ℕ
total [] = 0
total (b ∷ bs) = length b + total bs

-- Where a loop may stop for each reason.
abbrev pub StopsAt : StopReason → Reads → Type 0
StopsAt at_eof r = (r ≡ eof) ⊎ (r ≡ error)
StopsAt backpressure r = (b : Bytes) × (s : Reads) × (r ≡ got b s) × (ends_line b ≡ true)
StopsAt at_limit r = Unit

module _ (crates : Crates) (opts : FileParseOpts) where
  open crates use {Value}

  -- The entry of an assembled line; a blank line has none.
  abbrev pub entries_of : Bytes → List (Entry Value)
  entries_of [] = []
  entries_of (c ∷ cs) = entry_of crates opts (c ∷ cs) ∷ []

  abbrev pub line_entries : Bytes → Bytes → List (Entry Value)
  line_entries partial buf = entries_of (normalize_line (complete crates partial (init buf)))

  -- The entries of pieces that were read one after another, and what is then in the partial buffer.
  abbrev pub shipped : Bytes → List Bytes → List (Entry Value)
  shipped partial [] = []
  shipped partial (b ∷ bs) =
      let later = shipped [] bs in
      let same = shipped (push_partial crates partial b) bs in
      if ends_line b then line_entries partial b ++ later else same

  abbrev pub left_over : Bytes → List Bytes → Bytes
  left_over partial [] = partial
  left_over partial (b ∷ bs) =
      let later = left_over [] bs in
      let same = left_over (push_partial crates partial b) bs in if ends_line b then later else same

  -- The pieces that a loop dealt with, and those that it left.
  pub record Delivered (r : Reads) (p : Progress crates) (o : StopReason × Progress crates)
      : Type 0 where
    pub done : List Bytes
    pub rest : Reads
    pub splits : r ≡ prepend done rest
    pub bytes_is : o.1.bytes_read ≡ p.bytes_read + total done
    pub pos_is : o.1.pos ≡ p.pos + total done
    pub partial_is : o.1.partial ≡ left_over p.partial done
    pub taken_is : o.1.sink.taken ≡ p.sink.taken ++ shipped p.partial done
    pub stops : StopsAt o.0 rest

  -- What became of a line: refused, with nothing changed; or dealt with.
  abbrev Emitted : List (Entry Value) → Bytes → Sink Value → Bool × Bytes × Sink Value → Type 0
  Emitted es partial sink o =
      (o.0 ≡ false → (o.1 ≡ partial) × (o.2.taken ≡ sink.taken))
      × (o.0 ≡ true → (o.1 ≡ []) × (o.2.taken ≡ sink.taken ++ es))

  emit_trimmed_lem :
      (line partial : Bytes) (sink : Sink Value)
      → Emitted (entries_of line) partial sink (emit_trimmed crates opts line partial sink)
  unfolding emit_trimmed
  emit_trimmed_lem [] partial sink = (λ h. cc, λ h. (refl, sym (append-nil sink.taken)))
  emit_trimmed_lem (c ∷ cs) partial sink =
      let sent = try_log_lem sink (entry_of crates opts (c ∷ cs)) in
      (λ h. (rw h refl, rw h at sent), λ h. (rw h refl, rw h at sent))

  pub try_emit_line_lem :
      (buf partial : Bytes) (sink : Sink Value)
      → Emitted
          (line_entries partial buf)
          partial
          sink
          (try_emit_line crates opts (init buf) partial sink)
  unfolding try_emit_line
  try_emit_line_lem buf partial sink =
      emit_trimmed_lem (normalize_line (complete crates partial (init buf))) partial sink

  -- The rounds of the loop, one equation for each branch.
  module _ (buf : Bytes) (rest : Reads) (n : ℕ) (p : Progress crates) where
    abbrev pub tried : Bool × Bytes × Sink Value
    tried = try_emit_line crates opts (init buf) p.partial p.sink

    pub round_refused :
        ends_line buf ≡ true
        → tried.0 ≡ false
        → line_loop crates opts (got buf rest) n p
          ≡ (backpressure, record p { partial = tried.1; sink = tried.2 })
    unfolding line_loop
    round_refused h k = rw (h, k, line_loop)

    pub round_limit :
        ends_line buf ≡ true
        → tried.0 ≡ true
        → leb max_lines_per_poll (n + 1) ≡ true
        → line_loop crates opts (got buf rest) n p
          ≡ (at_limit, advance crates p buf tried.1 tried.2)
    unfolding line_loop
    round_limit h k l = rw (h, k, l, line_loop)

    pub round_next :
        ends_line buf ≡ true
        → tried.0 ≡ true
        → leb max_lines_per_poll (n + 1) ≡ false
        → line_loop crates opts (got buf rest) n p
          ≡ line_loop crates opts rest (n + 1) (advance crates p buf tried.1 tried.2)
    unfolding line_loop
    round_next h k l = rw (h, k, l, line_loop)

    pub round_partial :
        ends_line buf ≡ false
        → line_loop crates opts (got buf rest) n p
          ≡ line_loop crates opts rest n
              (advance crates p buf (push_partial crates p.partial buf) p.sink)
    unfolding line_loop
    round_partial h = rw (h, line_loop)

  -- Nothing more is done.
  here :
      (r : Reads) (p q : Progress crates) (s : StopReason)
      → q.bytes_read ≡ p.bytes_read
      → q.pos ≡ p.pos
      → q.partial ≡ p.partial
      → q.sink.taken ≡ p.sink.taken
      → StopsAt s r
      → Delivered r p (s, q)
  here r p q s b o l t h = record {
    done = [];
    rest = r;
    splits = refl;
    bytes_is = omega arith;
    pos_is = omega arith;
    partial_is = l;
    taken_is = t ∙ sym (append-nil p.sink.taken);
    stops = h;
  }

  -- A piece that was dealt with, in front of what follows.
  after :
      (buf : Bytes) (r : Reads) (p q : Progress crates) (o : StopReason × Progress crates)
      → q.bytes_read ≡ p.bytes_read + length buf
      → q.pos ≡ p.pos + length buf
      → ((bs : List Bytes) → left_over q.partial bs ≡ left_over p.partial (buf ∷ bs))
      → ((bs : List Bytes)
          → q.sink.taken ++ shipped q.partial bs ≡ p.sink.taken ++ shipped p.partial (buf ∷ bs))
      → Delivered r q o
      → Delivered (got buf r) p o
  after buf r p q o b i l t d = record {
    done = buf ∷ d.done;
    rest = d.rest;
    splits = ap (got buf) d.splits;
    bytes_is = omega (arith, d.bytes_is);
    pos_is = omega (arith, d.pos_is);
    partial_is = d.partial_is ∙ l d.done;
    taken_is = d.taken_is ∙ t d.done;
    stops = d.stops;
  }

  pub line_loop-Delivered :
      (r : Reads) (n : ℕ) (p : Progress crates) → Delivered r p (line_loop crates opts r n p)
  line_loop-Delivered eof n p =
      unfold line_loop in here eof p p at_eof refl refl refl refl (inl refl)
  line_loop-Delivered error n p =
      unfold line_loop in here error p p at_eof refl refl refl refl (inr refl)
  line_loop-Delivered (got buf rest) n p = elim (Bool-cases (ends_line buf)) [
    | inr part ↦ rw (round_partial buf rest n p part) (
        after buf rest p (advance crates p buf (push_partial crates p.partial buf) p.sink) _ refl
          refl (λ bs. rw part) (λ bs. rw part)
          (line_loop-Delivered rest n
            (advance crates p buf (push_partial crates p.partial buf) p.sink)))
    | inl line ↦
        let (lost, ok) = try_emit_line_lem buf p.partial p.sink in
        elim (Bool-cases (tried buf rest n p).0) [
          | inr refused ↦ rw (round_refused buf rest n p line refused) (
              here (got buf rest) p
                (record p { partial = (tried buf rest n p).1; sink = (tried buf rest n p).2 })
                backpressure refl refl (lost refused).0 (lost refused).1 (buf, rest, refl, line))
          | inl sent ↦
              let q = advance crates p buf (tried buf rest n p).1 (tried buf rest n p).2 in
              let same_left : (bs : List Bytes)
                  → left_over q.partial bs ≡ left_over p.partial (buf ∷ bs) =
                λ bs. rw (line, (ok sent).0) in
              let same_sent : (bs : List Bytes)
                  → q.sink.taken ++ shipped q.partial bs
                    ≡ p.sink.taken ++ shipped p.partial (buf ∷ bs) =
                λ bs.
                  rw (line, (ok sent).0, (ok sent).1)
                    (append_assoc p.sink.taken (line_entries p.partial buf) (shipped [] bs)) in
              elim (Bool-cases (leb max_lines_per_poll (n + 1))) [
                | inl full ↦ rw (round_limit buf rest n p line sent full) (
                    after buf rest p q (at_limit, q) refl refl same_left same_sent
                      (here rest q q at_limit refl refl refl refl tt))
                | inr more ↦ rw (round_next buf rest n p line sent more) (
                    after buf rest p q _ refl refl same_left same_sent
                      (line_loop-Delivered rest (n + 1) q))
              ]
        ]
  ]
