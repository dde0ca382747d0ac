-- ===== src/Journal/Attempt.antt =====
-- src/logs/journal.rs: what one attempt at a line does to the machine.
use witness.Prelude.{
  ◌+◌, ◌≡◌, refl, sym, ap, ◌∙◌, subst, ◌⊎◌, inl, inr, false, Option, none, some, List, [], ◌∷◌,
  ◌++◌, append-nil, append_assoc, ltb, leb, if◌then◌else◌, Bool-cases, Option-cases, length,
}
use witness.Prelude.Str.{Bytes}
use witness.Std.Case.{Case}
use witness.Std.Trim.{trim}
use witness.Crates.{Crates}
use witness.Sink.{Entry, Sink, try_log_with_service, try_log_lem}
use witness.Source.{CheckpointFile, write_checkpoint}
use witness.Journal.{
  ServiceFilter, JournalEntry, handled, parse_failed, process_entry, ship_wanted, wanted,
}
use witness.Journal.Reader.{
  Read, line, failure, reading, waiting, Machine, ReaderState, max_line_len, cursor_save_interval,
  newer, save_cursor, advance, processed, attempt,
}

pub save_cursor_cases :
    (o : Option Bytes) (file : CheckpointFile)
    → ((save_cursor o file).content ≡ file.content) ⊎ ((save_cursor o file).content ≡ o)
unfolding save_cursor write_checkpoint
save_cursor_cases none file = inl refl
save_cursor_cases (some c) file = elim (Bool-cases (file.replaces file.attempts)) [
  | inl y ↦ inr (rw y)
  | inr n ↦ inl (rw n)
]

-- The cursor becomes the last one; the file keeps its cursor or has the last one.
pub advance_cases :
    (cursor : Option Bytes) (s : ReaderState) (file : CheckpointFile)
    → (let o = advance cursor s file in
        (o.0.last_cursor ≡ newer cursor s.last_cursor)
        × ((o.1.content ≡ file.content) ⊎ (o.1.content ≡ o.0.last_cursor)))
unfolding advance
advance_cases cursor s file =
    elim (Bool-cases (leb cursor_save_interval (s.entries_since_save + 1))) [
      | inl y ↦ rw y (refl, save_cursor_cases (newer cursor s.last_cursor) file)
      | inr n ↦ rw n (refl, inl refl)
    ]

module _ (crates : Crates) (case : Case) (decode : Bytes → Option (JournalEntry (crates.Value)))
    (filter : ServiceFilter) where
  open crates use {Value}

  abbrev pub one : Option (Entry Value) → List (Entry Value)
  one none = []
  one (some e) = e ∷ []

  abbrev pub shipped_entry : Option (JournalEntry Value) → List (Entry Value)
  shipped_entry none = []
  shipped_entry (some e) = one (wanted crates case filter e)

  abbrev pub cursor_entry : Option Bytes → Option (JournalEntry Value) → Option Bytes
  cursor_entry old none = old
  cursor_entry old (some e) = newer e.cursor old

  -- What a line is worth to the sink: the entry of one that is short enough, well formed and wanted.
  abbrev pub shipped_line : Read → List (Entry Value)
  shipped_line failure = []
  shipped_line (line text) =
      if ltb max_line_len (length text) then [] else shipped_entry (decode (trim text))

  abbrev pub shipped : List Read → List (Entry Value)
  shipped [] = []
  shipped (l ∷ ls) = shipped_line l ++ shipped ls

  abbrev pub cursor_line : Option Bytes → Read → Option Bytes
  cursor_line old failure = old
  cursor_line old (line text) =
      if ltb max_line_len (length text) then old else cursor_entry old (decode (trim text))

  -- The last cursor among lines that were handled.
  abbrev pub cursor_after : Option Bytes → List Read → Option Bytes
  cursor_after old [] = old
  cursor_after old (l ∷ ls) = cursor_after (cursor_line old l) ls

  pub shipped-append : (xs ys : List Read) → shipped (xs ++ ys) ≡ shipped xs ++ shipped ys
  shipped-append [] ys = refl
  shipped-append (x ∷ xs) ys =
      ap (◌++◌ (shipped_line x)) (shipped-append xs ys)
      ∙ sym (append_assoc (shipped_line x) (shipped xs) (shipped ys))

  pub cursor_after-append :
      (old : Option Bytes) (xs ys : List Read)
      → cursor_after old (xs ++ ys) ≡ cursor_after (cursor_after old xs) ys
  cursor_after-append old [] ys = refl
  cursor_after-append old (x ∷ xs) ys = cursor_after-append (cursor_line old x) xs ys

  -- A line was consumed.
  abbrev pub Consumes : Read → Machine Value → Machine Value → Type 0
  Consumes l m m' =
      (m'.sink.taken ≡ m.sink.taken ++ shipped_line l)
      × (m'.state.last_cursor ≡ cursor_line m.state.last_cursor l)
      × ((m'.file.content ≡ m.file.content) ⊎ (m'.file.content ≡ m'.state.last_cursor))
      × (m'.input ≡ m.input)

  -- A line was refused, and is kept.
  abbrev pub Keeps : Bytes → Machine Value → Machine Value → Type 0
  Keeps text m m' =
      (m'.sink.taken ≡ m.sink.taken)
      × (m'.state ≡ m.state)
      × (m'.file ≡ m.file)
      × (m'.mode ≡ waiting text)
      × (m'.input ≡ m.input)

  abbrev pub Attempted : Bytes → Machine Value → Machine Value → Type 0
  Attempted text m m' = (Consumes (line text) m m' × (m'.mode ≡ reading)) ⊎ Keeps text m m'

  pub handled_line :
      (text : Bytes) (s : Sink Value) (m : Machine Value) (e : JournalEntry Value)
      → ltb max_line_len (length text) ≡ false
      → decode (trim text) ≡ some e
      → s.taken ≡ m.sink.taken ++ one (wanted crates case filter e)
      → Attempted text m (processed text (handled e.cursor, s) m)
  unfolding processed
  handled_line text s m e short d t =
      let (last, saved) = advance_cases e.cursor m.state m.file in
      inl ((rw (short, d) t, rw (short, d) last, saved, refl), refl)

  pub attempt_entry :
      (text : Bytes) (m : Machine Value) (e : JournalEntry Value)
      → ltb max_line_len (length text) ≡ false
      → decode (trim text) ≡ some e
      → Attempted text m (
          processed text
            (ship_wanted crates case decode e.cursor (wanted crates case filter e) m.sink)
            m)
  unfolding ship_wanted
  attempt_entry text m e short d = elim (Option-cases (wanted crates case filter e)) [
    | inl none_wanted ↦
        rw (none_wanted, ship_wanted)
          (handled_line text m.sink m e short d (rw none_wanted (sym (append-nil m.sink.taken))))
    | inr (entry, w) ↦
        let sent = try_log_lem m.sink entry in
        elim (Bool-cases (try_log_with_service m.sink entry).0) [
          | inl y ↦
              rw (w, ship_wanted, y)
                (handled_line text (try_log_with_service m.sink entry).1 m e short d
                  (rw w (rw y at sent)))
          | inr n ↦
              rw (w, ship_wanted, n)
                (inr (unfold processed in (rw n at sent, refl, refl, refl, refl)))
        ]
  ]

  pub malformed_line :
      (text : Bytes) (m : Machine Value)
      → ltb max_line_len (length text) ≡ false
      → decode (trim text) ≡ none
      → Attempted text m (processed text (parse_failed, m.sink) m)
  unfolding processed
  malformed_line text m short bad = inl (
    (rw (short, bad) (sym (append-nil m.sink.taken)), rw (short, bad) refl, inl refl, refl),
    refl,
  )

  pub process_entry_malformed :
      (text : Bytes) (s : Sink Value)
      → decode (trim text) ≡ none
      → process_entry crates case decode text filter s ≡ (parse_failed, s)
  unfolding process_entry
  process_entry_malformed text s bad = rw (bad, process_entry) refl

  pub process_entry_parsed :
      (text : Bytes) (s : Sink Value) (e : JournalEntry Value)
      → decode (trim text) ≡ some e
      → process_entry crates case decode text filter s
        ≡ ship_wanted crates case decode e.cursor (wanted crates case filter e) s
  unfolding process_entry
  process_entry_parsed text s e d = rw (d, process_entry) refl

  pub attempt_cases :
      (text : Bytes) (m : Machine Value)
      → ltb max_line_len (length text) ≡ false
      → Attempted text m (attempt crates case decode filter text m)
  unfolding attempt
  attempt_cases text m short = elim (Option-cases (decode (trim text))) [
    | inl bad ↦
        subst (λ o. Attempted text m (processed text o m))
          (sym (process_entry_malformed text m.sink bad)) (malformed_line text m short bad)
    | inr (e, d) ↦
        subst (λ o. Attempted text m (processed text o m))
          (sym (process_entry_parsed text m.sink e d)) (attempt_entry text m e short d)
  ]
