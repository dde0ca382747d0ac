-- ===== src/Watcher/Complete.antt =====
-- src/logs/watcher.rs: polls get to the end of a file, and what is then shipped.
use witness.Prelude.{
  inl, inr, Bool-cases, length-drop, ap, ◌<◌, ◌+◌, ◌∙◌, ℕ, zero, suc, ◌≤◌, ◌≡◌, refl, sym, true,
  List, [], ◌∷◌, ◌++◌, append-nil, arith, length, drop,
}
use witness.Prelude.Str.{Bytes}
use witness.Text.Lines.{split_lines, push_front, ends_line}
use witness.Text.Loop.{reads_of, reads_lem}
use witness.Crates.{Crates}
use witness.Sink.{
  Entry, Sink, SinkInner, live, dry_run, discard, Accepts, try_log_with_service, try_log_to,
}
use witness.Structured.Classify.{FileParseOpts}
use witness.Watcher.State.{File, TailedFile}
use witness.Watcher.Lines.{
  init, complete, normalize_line, emit_trimmed, try_emit_line, push_partial, line_loop, read_lines,
  start, Progress, advance, max_lines_per_poll, entry_of,
}
use witness.Watcher.Delivery.{total, shipped, tried, round_next, round_partial}
use witness.Watcher.Polls.{Holds, read_many, read_many-Standing, read_lines_at}

total-push_front : (c : ℕ) (ls : List Bytes) → total (push_front c ls) ≡ suc (total ls)
total-push_front c [] = omega arith
total-push_front c (l ∷ ls) = omega arith

total-split_lines : (s : Bytes) → total (split_lines s) ≡ length s
unfolding split_lines
total-split_lines [] = refl
total-split_lines (c ∷ cs) =
    ground (arith, total-split_lines cs, total-push_front c (split_lines cs))

drop_all : (n : ℕ) (s : Bytes) → length s ≤ n → drop n s ≡ []
drop_all zero [] h = refl
drop_all zero (c ∷ cs) h = absurd (omega arith)
drop_all (suc n) [] h = refl
drop_all (suc n) (c ∷ cs) h = drop_all n cs (omega arith)

split_at_end : (s : Bytes) (n : ℕ) → length s ≤ n → split_lines (drop n s) ≡ []
split_at_end s n h = ap split_lines (drop_all n s h) ∙ unfold split_lines in refl

module _ {Value : Type 0} where
  accepted_by :
      (i : SinkInner) (s : Sink Value) (e : Entry Value)
      → Accepts i
      → ((try_log_to i s e).0 ≡ true) × Accepts (try_log_to i s e).1.inner
  unfolding try_log_to
  accepted_by (live answer calls) s e h = (h calls, h)
  accepted_by (dry_run n) s e h = (refl, tt)
  accepted_by discard s e h = (refl, h)

  accepted :
      (s : Sink Value) (e : Entry Value)
      → Accepts s.inner
      → ((try_log_with_service s e).0 ≡ true) × Accepts (try_log_with_service s e).1.inner
  unfolding try_log_with_service
  accepted s e h = accepted_by s.inner s e h

module _ (crates : Crates) (opts : FileParseOpts) where
  -- Once the position has reached the end of an unchanging file, however the sink answered on the
  -- way, the entries shipped are those of all its lines from the first position, once and in order.
  pub read_many_complete :
      (content : Bytes) (file : File) (k : ℕ) (t : TailedFile) (sink : Sink crates.Value)
      → Holds file content
      → length content ≤ (read_many crates opts k file t sink).0.pos
      → (read_many crates opts k file t sink).1.taken
        ≡ sink.taken ++ shipped crates opts t.partial (split_lines (drop t.pos content))
  read_many_complete content file k t sink holds far =
      let s =
        read_many-Standing crates opts content t.partial t.pos sink.taken file holds k t sink
          (record {
            done = [];
            left = split_lines (drop t.pos content);
            lines_are = refl;
            ahead = refl;
            pos_is = omega arith;
            partial_is = refl;
            taken_is = sym (append-nil sink.taken);
          }) in
      let at_end = split_at_end content (read_many crates opts k file t sink).0.pos far in
      let nothing_left = sym s.ahead ∙ at_end in
      s.taken_is
      ∙ ap (λ l. sink.taken ++ shipped crates opts t.partial l)
          (sym (append-nil s.done) ∙ ap (λ l. s.done ++ l) (sym nothing_left) ∙ sym s.lines_are)

  emit_trimmed_accepted :
      (line partial : Bytes) (sink : Sink crates.Value)
      → Accepts sink.inner
      → (let o = emit_trimmed crates opts line partial sink in (o.0 ≡ true) × Accepts o.2.inner)
  unfolding emit_trimmed
  emit_trimmed_accepted [] partial sink h = (refl, h)
  emit_trimmed_accepted (c ∷ cs) partial sink h = accepted sink (entry_of crates opts (c ∷ cs)) h

  try_emit_line_accepted :
      (bytes partial : Bytes) (sink : Sink crates.Value)
      → Accepts sink.inner
      → (let o = try_emit_line crates opts bytes partial sink in (o.0 ≡ true) × Accepts o.2.inner)
  unfolding try_emit_line
  try_emit_line_accepted bytes partial sink h =
      emit_trimmed_accepted (normalize_line (complete crates partial bytes)) partial sink h

  line_loop_accepted :
      (ls : List Bytes) (n : ℕ) (p : Progress crates)
      → Accepts p.sink.inner
      → n + length ls < max_lines_per_poll
      → (line_loop crates opts (reads_of ls) n p).1.pos ≡ p.pos + total ls
  line_loop_accepted [] n p h few = unfold line_loop in omega arith
  line_loop_accepted (l ∷ ls) n p h few = elim (Bool-cases (ends_line l)) [
    | inr part ↦
        let q = advance crates p l (push_partial crates p.partial l) p.sink in
        rw (round_partial crates opts l (reads_of ls) n p part)
          (line_loop_accepted ls n q h (omega arith) ∙ past p l ls)
    | inl line ↦
        let (sent, still) = try_emit_line_accepted (init l) p.partial p.sink h in
        let o = tried crates opts l (reads_of ls) n p in
        let q = advance crates p l o.1 o.2 in
        rw (round_next crates opts l (reads_of ls) n p line sent (ground arith))
          (line_loop_accepted ls (n + 1) q still (omega arith) ∙ past p l ls)
  ]
    where
      past :
          (p : Progress crates) (l : Bytes) (ls : List Bytes)
          → p.pos + length l + total ls ≡ p.pos + total (l ∷ ls)
      past p l ls = omega arith

  -- With a sink that has room, one poll reads an unchanging file to its end, if fewer lines are
  -- ahead than a poll may emit; so its lines are all shipped, once and in order.
  pub read_lines_live :
      (content : Bytes) (file : File) (t : TailedFile) (sink : Sink crates.Value)
      → Holds file content
      → Accepts sink.inner
      → length (split_lines (drop t.pos content)) < max_lines_per_poll
      → t.pos ≤ length content
      → (let o = read_lines crates opts file t sink in
          (o.1.pos ≡ length content)
          × (o.2.taken
              ≡ sink.taken ++ shipped crates opts t.partial (split_lines (drop t.pos content))))
  unfolding read_many
  read_lines_live content file t sink holds room few inside =
      let (reader, found, clean, same) = holds t.pos in
      let lines = reads_lem crates reader clean ∙ ap (λ d. reads_of (split_lines d)) same in
      let ahead = split_lines (drop t.pos content) in
      let pos_is : (read_lines crates opts file t sink).1.pos ≡ length content =
        ap (λ o. o.1.pos) (read_lines_at crates opts file t sink reader found)
        ∙ ap (λ r. (line_loop crates opts r 0 (start crates t sink)).1.pos) lines
        ∙ line_loop_accepted ahead 0 (start crates t sink) room (omega arith)
        ∙ omega (arith, total-split_lines (drop t.pos content), length-drop {0} t.pos content) in
      (pos_is, read_many_complete content file 1 t sink holds (omega arith))
