-- ===== src/Watcher/Polls.antt =====
-- src/logs/watcher.rs: repeated polls of one file.
use witness.Prelude.{
  ℕ, zero, suc, ◌+◌, ◌≡◌, refl, sym, ap, ap₂, ◌∙◌, subst, inl, inr, some, List, [], ◌∷◌, ◌++◌,
  append_assoc, arith, Bool-cases, length, drop, drop-append, drop-add,
}
use witness.Prelude.Str.{Bytes}
use witness.Text.{reads, Reader, Reads, eof, got}
use witness.Text.Lines.{
  ends_line, first_line, after_line, split_lines, split_lines_step, first-append-after,
}
use witness.Text.Reading.{data_of}
use witness.Text.Loop.{reads_lem, IsClean, reads_of}
use witness.Crates.{Crates}
use witness.Sink.{Entry, Sink}
use witness.Structured.Classify.{FileParseOpts}
use witness.Watcher.State.{File, TailedFile}
use witness.Watcher.Lines.{store, Progress, start, line_loop, StopReason, push_partial, read_lines}
use witness.Watcher.Delivery.{
  line_loop-Delivered, Delivered, prepend, total, shipped, left_over, line_entries,
}

-- A file that reads as `content` from every offset, to its end and with no error.
abbrev pub Holds : File → Bytes → Type 0
Holds file content =
    (q : ℕ) → (r : Reader) × (file.reader_at q ≡ some r) × IsClean r × (data_of r ≡ drop q content)

pub got_head : (a b : Bytes) (r s : Reads) → got a r ≡ got b s → a ≡ b
got_head a b r s e = cc

pub got_tail : (a b : Bytes) (r s : Reads) → got a r ≡ got b s → r ≡ s
got_tail a b r s e = cc

total-append : (xs ys : List Bytes) → total (xs ++ ys) ≡ total xs + total ys
total-append [] ys = omega arith
total-append (b ∷ bs) ys = omega (arith, total-append bs ys)

-- Lines that were read in part are the lines done and those left.
pub split-prepend :
    (ls done : List Bytes) (rest : Reads)
    → reads_of ls ≡ prepend done rest
    → (left : List Bytes) × (ls ≡ done ++ left)
split-prepend ls [] rest e = (ls, refl)
split-prepend [] (b ∷ bs) rest e = absurd (eof-ne-got _ _ e)
  where
    eof-ne-got : (b : Bytes) (r : Reads) → eof ≡ got b r → ⊥
    eof-ne-got b r e = cc
split-prepend (l ∷ ls) (b ∷ bs) rest e =
    let (left, same) = split-prepend ls bs rest (got_tail l b _ _ e) in
    (left, ap₂ ◌∷◌ (got_head l b _ _ e) same)

drop_first : (s : Bytes) → drop (length (first_line s)) s ≡ after_line s
drop_first s =
    subst (λ t. drop (length (first_line s)) t ≡ after_line s) (first-append-after s)
      (drop-append (first_line s) (after_line s))

cons_head : (a b : Bytes) (r s : List Bytes) → a ∷ r ≡ b ∷ s → a ≡ b
cons_head a b r s e = cc

cons_tail : (a b : Bytes) (r s : List Bytes) → a ∷ r ≡ b ∷ s → r ≡ s
cons_tail a b r s e = cc

-- Past the lines that are done stand the others.
pub split_lines_past :
    (done left : List Bytes) (s : Bytes)
    → split_lines s ≡ done ++ left
    → split_lines (drop (total done) s) ≡ left
split_lines_past [] left s e = e
split_lines_past (b ∷ bs) left [] e = absurd (nothing e)
  where
    nothing : split_lines [] ≡ b ∷ (bs ++ left) → ⊥
    nothing e = unfold split_lines in cc
split_lines_past (b ∷ bs) left (c ∷ cs) e =
    let here = sym (split_lines_step c cs) ∙ e in
    let line = cons_head (first_line (c ∷ cs)) b _ _ here in
    let later = cons_tail (first_line (c ∷ cs)) b _ _ here in
    ap split_lines (
      drop-add (length b) (total bs) (c ∷ cs)
      ∙ ap (λ l. drop (total bs) (drop (length l) (c ∷ cs))) (sym line)
      ∙ ap (drop (total bs)) (drop_first (c ∷ cs)))
    ∙ split_lines_past bs left (after_line (c ∷ cs)) later

module _ (crates : Crates) (opts : FileParseOpts) where
  shipped-append :
      (partial : Bytes) (xs ys : List Bytes)
      → shipped crates opts partial (xs ++ ys)
        ≡ shipped crates opts partial xs
          ++ shipped crates opts (left_over crates opts partial xs) ys
  shipped-append partial [] ys = refl
  shipped-append partial (b ∷ bs) ys = elim (Bool-cases (ends_line b)) [
    | inl line ↦
        rw (line, shipped-append [] bs ys)
          (sym (append_assoc (line_entries crates opts partial b) _ _))
    | inr part ↦ rw part (shipped-append (push_partial crates partial b) bs ys)
  ]

  left_over-append :
      (partial : Bytes) (xs ys : List Bytes)
      → left_over crates opts partial (xs ++ ys)
        ≡ left_over crates opts (left_over crates opts partial xs) ys
  left_over-append partial [] ys = refl
  left_over-append partial (b ∷ bs) ys = elim (Bool-cases (ends_line b)) [
    | inl line ↦ rw line (left_over-append [] bs ys)
    | inr part ↦ rw part (left_over-append (push_partial crates partial b) bs ys)
  ]

  -- Where a file stands that is read from `from`, with `partial` buffered then and `base` shipped
  -- before: which of its lines are done, and which are ahead.
  pub record Standing (content : Bytes) (from : ℕ) (partial : Bytes)
      (base : List (Entry crates.Value)) (t : TailedFile) (sink : Sink crates.Value) : Type 0 where
    pub done : List Bytes
    pub left : List Bytes
    pub lines_are : split_lines (drop from content) ≡ done ++ left
    pub ahead : split_lines (drop t.pos content) ≡ left
    pub pos_is : t.pos ≡ from + total done
    pub partial_is : t.partial ≡ left_over crates opts partial done
    pub taken_is : sink.taken ≡ base ++ shipped crates opts partial done

  unfoldable pub read_many :
      ℕ → File → TailedFile → Sink crates.Value → TailedFile × Sink crates.Value
  read_many zero file t sink = (t, sink)
  read_many (suc k) file t sink =
      let (_, t', sink') = read_lines crates opts file t sink in read_many k file t' sink'

  pub read_lines_at :
      (file : File) (t : TailedFile) (sink : Sink crates.Value) (reader : Reader)
      → file.reader_at t.pos ≡ some reader
      → (let p = (line_loop crates opts (reads crates reader) 0 (start crates t sink)).1 in
          read_lines crates opts file t sink ≡ (p.bytes_read, store crates t p, p.sink))
  unfolding read_lines
  read_lines_at file t sink reader e = rw (e, read_lines)

  -- The lines that one more loop did, behind those done before.
  pub Standing-Delivered :
      (content partial : Bytes) (from : ℕ) (base : List (Entry crates.Value)) (t : TailedFile)
      (sink : Sink crates.Value) (r : Reads) (o : StopReason × Progress crates)
      → r ≡ reads_of (split_lines (drop t.pos content))
      → Standing content from partial base t sink
      → Delivered crates opts r (start crates t sink) o
      → Standing content from partial base (store crates t o.1) o.1.sink
  Standing-Delivered content partial from base t sink r o e s d =
      let (left, same) =
        split-prepend s.left d.done d.rest (ap reads_of (sym s.ahead) ∙ sym e ∙ d.splits) in
      record {
        done = s.done ++ d.done;
        left = left;
        lines_are =
            s.lines_are ∙ ap (λ l. s.done ++ l) same ∙ sym (append_assoc s.done d.done left);
        ahead =
            ap (λ q. split_lines (drop q content)) d.pos_is
            ∙ ap split_lines (drop-add t.pos (total d.done) content)
            ∙ split_lines_past d.done left (drop t.pos content) (s.ahead ∙ same);
        pos_is = omega (arith, d.pos_is, s.pos_is, total-append s.done d.done);
        partial_is =
            d.partial_is
            ∙ ap (λ l. left_over crates opts l d.done) s.partial_is
            ∙ sym (left_over-append partial s.done d.done);
        taken_is =
            d.taken_is
            ∙ ap₂ (λ b l. b ++ shipped crates opts l d.done) s.taken_is s.partial_is
            ∙ append_assoc base (shipped crates opts partial s.done) _
            ∙ ap (λ l. base ++ l) (sym (shipped-append partial s.done d.done));
      }

  module _ (content partial : Bytes) (from : ℕ) (base : List (Entry crates.Value)) (file : File)
      (holds : Holds file content) where
    pub read_lines-Standing :
        (t : TailedFile) (sink : Sink crates.Value)
        → Standing content from partial base t sink
        → (let o = read_lines crates opts file t sink in Standing content from partial base o.1 o.2)
    read_lines-Standing t sink s =
        let (reader, found, clean, same) = holds t.pos in
        rw (read_lines_at file t sink reader found) (
          Standing-Delivered content partial from base t sink (reads crates reader) _
            (reads_lem crates reader clean ∙ ap (λ d. reads_of (split_lines d)) same) s
            (line_loop-Delivered crates opts (reads crates reader) 0 (start crates t sink)))

    -- However many polls are made, and whatever the sink answers in them: the entries shipped are
    -- those of the lines before the position, each once and in order, and the lines ahead are intact.
    pub read_many-Standing :
        (k : ℕ) (t : TailedFile) (sink : Sink crates.Value)
        → Standing content from partial base t sink
        → (let o = read_many k file t sink in Standing content from partial base o.0 o.1)
    unfolding read_many
    read_many-Standing zero t sink s = s
    read_many-Standing (suc k) t sink s =
        let o = read_lines crates opts file t sink in
        read_many-Standing k o.1 o.2 (read_lines-Standing t sink s)
