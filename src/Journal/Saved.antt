-- ===== src/Journal/Saved.antt =====
-- src/logs/journal.rs: where a run leaves, its last cursor is in the file.
use witness.Prelude.{
  ◌+◌, ◌≡◌, refl, ◌≢◌, inl, inr, Option, none, some, List, [], ◌∷◌, ltb, leb, Bool-cases, length,
}
use witness.Prelude.Str.{Bytes}
use witness.Std.Case.{Case}
use witness.Crates.{Crates}
use witness.Sink.{Sink}
use witness.Source.{CheckpointFile, Replaces, write_checkpoint}
use witness.Journal.{
  ServiceFilter, JournalEntry, ProcessResult, handled, channel_full, parse_failed, process_entry,
}
use witness.Journal.Reader.{
  Read, line, failure, Mode, reading, waiting, exited, Event, read, elapsed, cancel, Machine,
  ReaderState, LoopExit, failed, cancelled, stream_ended, read_error, max_line_len,
  cursor_save_interval, newer, save_cursor, advance, save_final, processed, attempt, read_next,
  step_in, step, run, run_journalctl, machine, load_cursor, spawn_arguments,
}

abbrev pub AtExit : Mode → Option Bytes → Option Bytes → Type 0
AtExit (exited e) content last = content ≡ last
AtExit reading content last = Unit
AtExit (waiting text) content last = Unit

-- Every write works and there is a cursor; where the machine has left, the file has it.
abbrev pub Saves : {V : Type 0} → Machine V → Type 0
Saves m =
    Replaces m.file
    × (m.state.last_cursor ≢ none)
    × AtExit m.mode m.file.content m.state.last_cursor

save_cursor-Replaces :
    (o : Option Bytes) (file : CheckpointFile) → Replaces file → Replaces (save_cursor o file)
unfolding save_cursor write_checkpoint
save_cursor-Replaces none file r = r
save_cursor-Replaces (some c) file r = r

save_cursor_saves :
    (o : Option Bytes) (file : CheckpointFile)
    → Replaces file
    → o ≢ none
    → (save_cursor o file).content ≡ o
unfolding save_cursor write_checkpoint
save_cursor_saves none file r h = absurd (h refl)
save_cursor_saves (some c) file r h = rw (r file.attempts) refl

newer_some : (new old : Option Bytes) → old ≢ none → newer new old ≢ none
newer_some none old h = h
newer_some (some c) old h = λ e. cc

advance_saves :
    (cursor : Option Bytes) (s : ReaderState) (file : CheckpointFile)
    → Replaces file
    → s.last_cursor ≢ none
    → (let o = advance cursor s file in Replaces o.1 × (o.0.last_cursor ≢ none))
unfolding advance
advance_saves cursor s file r h =
    elim (Bool-cases (leb cursor_save_interval (s.entries_since_save + 1))) [
      | inl y ↦ rw y (
        save_cursor-Replaces (newer cursor s.last_cursor) file r,
        newer_some cursor s.last_cursor h,
      )
      | inr n ↦ rw n (r, newer_some cursor s.last_cursor h)
    ]

module _ {V : Type 0} where
  save_final-Saves :
      (m : Machine V) (e : LoopExit)
      → Replaces m.file
      → m.state.last_cursor ≢ none
      → Saves (save_final m e)
  unfolding save_final
  save_final-Saves m e r h = (
    save_cursor-Replaces m.state.last_cursor m.file r,
    h,
    save_cursor_saves m.state.last_cursor m.file r h,
  )

  processed-Saves :
      (text : Bytes) (o : ProcessResult × Sink V) (m : Machine V)
      → Replaces m.file
      → m.state.last_cursor ≢ none
      → Saves (processed text o m)
  unfolding processed
  processed-Saves text (handled cursor, s) m r h =
      let (r', h') = advance_saves cursor m.state m.file r h in (r', h', tt)
  processed-Saves text (channel_full, s) m r h = (r, h, tt)
  processed-Saves text (parse_failed, s) m r h = (r, h, tt)

module _ (crates : Crates) (case : Case) (decode : Bytes → Option (JournalEntry (crates.Value)))
    (filter : ServiceFilter) where
  open crates use {Value}

  attempt-Saves :
      (text : Bytes) (m : Machine Value)
      → Replaces m.file
      → m.state.last_cursor ≢ none
      → Saves (attempt crates case decode filter text m)
  unfolding attempt
  attempt-Saves text m r h =
      processed-Saves text (process_entry crates case decode text filter m.sink) m r h

  read_next-Saves :
      (input : List Read) (m : Machine Value)
      → m.mode ≡ reading
      → Replaces m.file
      → m.state.last_cursor ≢ none
      → Saves (read_next crates case decode filter input m)
  unfolding read_next
  read_next-Saves [] m e r h = save_final-Saves m (failed stream_ended) r h
  read_next-Saves (failure ∷ rest) m e r h =
      save_final-Saves (record m { input = rest }) (failed read_error) r h
  read_next-Saves (line text ∷ rest) m e r h = elim (Bool-cases (ltb max_line_len (length text))) [
    | inl long ↦ rw long (r, h, rw e tt)
    | inr short ↦ rw short (attempt-Saves text (record m { input = rest }) r h)
  ]

  step_in-Saves :
      (mode : Mode) (event : Event) (m : Machine Value)
      → m.mode ≡ mode
      → Saves m
      → Saves (step_in crates case decode filter mode event m)
  unfolding step_in
  step_in-Saves reading read m e (r, h, x) = read_next-Saves m.input m e r h
  step_in-Saves reading cancel m e (r, h, x) = save_final-Saves m cancelled r h
  step_in-Saves reading elapsed m e s = s
  step_in-Saves (waiting text) elapsed m e (r, h, x) = attempt-Saves text m r h
  step_in-Saves (waiting text) cancel m e (r, h, x) = save_final-Saves m cancelled r h
  step_in-Saves (waiting text) read m e s = s
  step_in-Saves (exited exit) event m e s = s

  pub run-Saves :
      (events : List Event) (m : Machine Value)
      → Saves m
      → Saves (run crates case decode filter events m)
  unfolding run step
  run-Saves [] m s = s
  run-Saves (e ∷ es) m s =
      run-Saves es (step crates case decode filter e m)
        (unfold step in step_in-Saves m.mode e m refl s)

  pub run_journalctl-Saves :
      (journalctl : List Bytes → Option (List Read)) (printed : List Read) (file : CheckpointFile)
      (sink : Sink Value) (events : List Event)
      → Replaces file
      → load_cursor file ≢ none
      → journalctl (spawn_arguments (load_cursor file)) ≡ some printed
      → Saves (run_journalctl crates case decode filter journalctl file sink events)
  unfolding run_journalctl
  run_journalctl-Saves journalctl printed file sink events r h prints =
      rw (prints, run_journalctl)
        (run-Saves events
          (machine crates case decode filter (load_cursor file) file sink reading printed)
          (r, h, tt))
