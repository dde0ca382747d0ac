-- ===== src/Unified/Attempt.antt =====
-- src/logs/unified.rs: what one attempt at a line does to the machine.
use witness.Prelude.{
  ℕ, ◌+◌, ◌≡◌, refl, sym, ap, ◌∙◌, subst, ◌⊎◌, inl, inr, Bool, true, false, Option, none, some,
  List, [], ◌∷◌, ◌++◌, append-nil, append_assoc, leb, if◌then◌else◌, Bool-cases, Option-cases,
  option_or,
}
use witness.Prelude.Str.{Bytes}
use witness.Prelude.Int.{ℤ}
use witness.Std.Case.{Case}
use witness.Std.Trim.{trim}
use witness.Crates.{Crates}
use witness.Sink.{Entry, Sink, try_log_with_service, try_log_lem}
use witness.Source.{CheckpointFile}
use witness.Unified.Parse.{
  Checkpoint, LogEntry, handled, channel_full, parse_failed, process_entry, Verdict, skip, ship,
  judge, carry_out,
}
use witness.Unified.Reader.{
  advanced, recorded, save_checkpoint, Read, line, failure, reading, waiting, exited, reconcile,
  Machine, ReaderState, cursor_save_interval, save_final, stalled, processed, record_result,
  reconcile_due, backpressure_reconcile, is_passed_over, attempt,
}

abbrev pub later : Option Checkpoint → Option Checkpoint → Option Checkpoint
later none old = old
later (some cp) old = some cp

module _ (crates : Crates) (case : Case) (of_i64 : ℤ → crates.Value)
    (decode : Bytes → Option (LogEntry (crates.Value))) (encode : Checkpoint → Option Bytes)
    (dedupe : Option Checkpoint) where
  open crates use {Value}

  abbrev pub shipped_verdict : Verdict Value → List (Entry Value)
  shipped_verdict (skip pos) = []
  shipped_verdict (ship e pos) = e ∷ []

  abbrev pub position_verdict : Verdict Value → Option Checkpoint
  position_verdict (skip pos) = pos
  position_verdict (ship e pos) = pos

  abbrev pub shipped_entry : Option (LogEntry Value) → List (Entry Value)
  shipped_entry none = []
  shipped_entry (some e) = shipped_verdict (judge crates case of_i64 dedupe e)

  abbrev pub position_entry : Option Checkpoint → Option (LogEntry Value) → Option Checkpoint
  position_entry old none = old
  position_entry old (some e) = later (position_verdict (judge crates case of_i64 dedupe e)) old

  -- What a line is worth to the sink.
  abbrev pub shipped_line : Read → List (Entry Value)
  shipped_line failure = []
  shipped_line (line text) = if is_passed_over text then [] else shipped_entry (decode (trim text))

  abbrev pub shipped : List Read → List (Entry Value)
  shipped [] = []
  shipped (l ∷ ls) = shipped_line l ++ shipped ls

  abbrev pub position_line : Option Checkpoint → Read → Option Checkpoint
  position_line old failure = old
  position_line old (line text) =
      if is_passed_over text then old else position_entry old (decode (trim text))

  -- The last position among lines that were handled.
  abbrev pub position_after : Option Checkpoint → List Read → Option Checkpoint
  position_after old [] = old
  position_after old (l ∷ ls) = position_after (position_line old l) ls

  pub shipped-append : (xs ys : List Read) → shipped (xs ++ ys) ≡ shipped xs ++ shipped ys
  shipped-append [] ys = refl
  shipped-append (x ∷ xs) ys =
      ap (◌++◌ (shipped_line x)) (shipped-append xs ys)
      ∙ sym (append_assoc (shipped_line x) (shipped xs) (shipped ys))

  pub position_after-append :
      (old : Option Checkpoint) (xs ys : List Read)
      → position_after old (xs ++ ys) ≡ position_after (position_after old xs) ys
  position_after-append old [] ys = refl
  position_after-append old (x ∷ xs) ys = position_after-append (position_line old x) xs ys

  abbrev pub Consumes : Read → Machine Value → Machine Value → Type 0
  Consumes l m m' =
      (m'.sink.taken ≡ m.sink.taken ++ shipped_line l)
      × (m'.state.last ≡ position_line m.state.last l)
      × (m'.mode ≡ reading)
      × (m'.input ≡ m.input)

  -- A line was refused: it is waited for, or given up because the stall has lasted too long.
  abbrev pub Keeps : Bytes → Machine Value → Machine Value → Type 0
  Keeps text m m' =
      (m'.sink.taken ≡ m.sink.taken)
      × (m'.state.last ≡ m.state.last)
      × ((m'.mode ≡ waiting text) ⊎ (m'.mode ≡ exited reconcile))
      × (m'.input ≡ m.input)

  abbrev pub Attempted : Bytes → Machine Value → Machine Value → Type 0
  Attempted text m m' = Consumes (line text) m m' ⊎ Keeps text m m'

  recorded_handled :
      (pos : Option Checkpoint) (s : ReaderState) (file : CheckpointFile)
      → (s' : ReaderState) × (file' : CheckpointFile) × (record_result encode (handled pos) s file
          ≡ (advanced, s', file'))
        × (s'.last ≡ later pos s.last)
  unfolding record_result
  recorded_handled none s file = (s, file, refl, refl)
  recorded_handled (some cp) s file =
      elim (Bool-cases (leb cursor_save_interval (s.since_save + 1))) [
        | inl y ↦ (
          record s { last = some cp; since_save = 0 },
          save_checkpoint encode (some cp) file,
          rw y refl,
          refl,
        )
        | inr n ↦
            (record s { last = some cp; since_save = s.since_save + 1 }, file, rw n refl, refl)
      ]

  stalled-Keeps :
      (live : Bool) (now : ℕ) (text : Bytes) (m : Machine Value)
      → Keeps text m (stalled encode live now text m)
  unfolding stalled save_final
  stalled-Keeps false now text m = (refl, refl, inl refl, refl)
  stalled-Keeps true now text m =
      elim (Bool-cases
        (reconcile_due (some (option_or m.full_since now)) now backpressure_reconcile)) [
          | inl due ↦ rw due (refl, refl, inr refl, refl)
          | inr early ↦ rw early (refl, refl, inl refl, refl)
        ]

  handled_line :
      (live : Bool) (now : ℕ) (text : Bytes) (s : Sink Value) (m : Machine Value)
      (e : LogEntry Value)
      → is_passed_over text ≡ false
      → decode (trim text) ≡ some e
      → s.taken ≡ m.sink.taken ++ shipped_verdict (judge crates case of_i64 dedupe e)
      → Attempted text m (
          processed encode live now text
            (handled (position_verdict (judge crates case of_i64 dedupe e)), s)
            m)
  unfolding processed
  handled_line live now text s m e short d t =
      let (s', file', is, at) =
        recorded_handled (position_verdict (judge crates case of_i64 dedupe e)) m.state m.file in
      subst (λ o. Attempted text m (recorded encode live now text o (record m { sink = s })))
        (sym is) (inl (rw (short, d) t, rw (short, d) at, refl, refl))

  refused_line :
      (live : Bool) (now : ℕ) (text : Bytes) (s : Sink Value) (m : Machine Value)
      → s.taken ≡ m.sink.taken
      → Attempted text m (processed encode live now text (channel_full, s) m)
  unfolding processed record_result
  refused_line live now text s m t =
      let (t', l, mode, i) = stalled-Keeps live now text (record m { sink = s }) in
      inr (t' ∙ t, l, mode, i)

  malformed_line :
      (live : Bool) (now : ℕ) (text : Bytes) (m : Machine Value)
      → is_passed_over text ≡ false
      → decode (trim text) ≡ none
      → Attempted text m (processed encode live now text (parse_failed, m.sink) m)
  unfolding processed record_result
  malformed_line live now text m short bad =
      inl (rw (short, bad) (sym (append-nil m.sink.taken)), rw (short, bad) refl, refl, refl)

  judged_line :
      (live : Bool) (now : ℕ) (text : Bytes) (m : Machine Value) (e : LogEntry Value)
      (v : Verdict Value)
      → is_passed_over text ≡ false
      → decode (trim text) ≡ some e
      → judge crates case of_i64 dedupe e ≡ v
      → Attempted text m (processed encode live now text (carry_out crates case of_i64 v m.sink) m)
  unfolding carry_out
  judged_line live now text m e (skip pos) short d j =
      subst
        (λ v.
          Attempted text m
            (processed encode live now text (handled (position_verdict v), m.sink) m))
        j (handled_line live now text m.sink m e short d (rw j (sym (append-nil m.sink.taken))))
  judged_line live now text m e (ship entry pos) short d j =
      let sent = try_log_lem m.sink entry in
      elim (Bool-cases (try_log_with_service m.sink entry).0) [
        | inl y ↦ rw y (
            subst
              (λ v. Attempted text m (
                processed encode live now text
                  (handled (position_verdict v), (try_log_with_service m.sink entry).1) m))
              j
              (handled_line live now text (try_log_with_service m.sink entry).1 m e short d
                (rw j (rw y at sent))))
        | inr n ↦
            rw n (refused_line live now text (try_log_with_service m.sink entry).1 m (rw n at sent))
      ]

  process_entry_malformed :
      (text : Bytes) (s : Sink Value)
      → decode (trim text) ≡ none
      → process_entry crates case of_i64 decode text dedupe s ≡ (parse_failed, s)
  unfolding process_entry
  process_entry_malformed text s bad = rw (bad, process_entry) refl

  process_entry_parsed :
      (text : Bytes) (s : Sink Value) (e : LogEntry Value)
      → decode (trim text) ≡ some e
      → process_entry crates case of_i64 decode text dedupe s
        ≡ carry_out crates case of_i64 (judge crates case of_i64 dedupe e) s
  unfolding process_entry
  process_entry_parsed text s e d = rw (d, process_entry) refl

  -- A line that is an entry is consumed, or refused and kept.
  pub attempt_cases :
      (live : Bool) (now : ℕ) (text : Bytes) (m : Machine Value)
      → is_passed_over text ≡ false
      → Attempted text m (attempt crates case of_i64 decode encode dedupe live now text m)
  unfolding attempt
  attempt_cases live now text m short = elim (Option-cases (decode (trim text))) [
    | inl bad ↦
        subst (λ o. Attempted text m (processed encode live now text o m))
          (sym (process_entry_malformed text m.sink bad)) (malformed_line live now text m short bad)
    | inr (e, d) ↦
        subst (λ o. Attempted text m (processed encode live now text o m))
          (sym (process_entry_parsed text m.sink e d))
          (judged_line live now text m e (judge crates case of_i64 dedupe e) short d refl)
  ]
